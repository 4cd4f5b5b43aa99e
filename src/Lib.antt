-- ===== src/Lib.antt =====
-- A verification library of morphic, the compiler that reads API specifications into one
-- intermediate representation (IR), runs passes over it and judges what they found.
--
-- The parts and how they interact. A source is compiled into an IR document; its numeric literals
-- are kept as text and read as decimals; declarations of one schema are folded, constraint by
-- constraint; the engine runs its passes over the document, checks what each hands back, collects
-- findings and judges the run at a threshold. The files follow these parts:
--
--   Base      booleans, lists, texts, machine integers: what the other files share
--   Ir        ir: Decimal (ir/decimal.go), BigVal (ir/bigval.go), Diagnostic (ir/provenance.go),
--             Inferred (ir/inferred.go), Ids (ir/ids.go), Composition (the aliases, supertypes and
--             subtypes of ir/composition.go), Exposure (the exposed properties of the same file),
--             WalkPath (the paths of ir/walk.go and the log of ir/pathlog.go)
--   Engine    engine: Passes (engine/passes.go), Stage (engine/stage.go and the hold and afterPass of
--             engine/verify.go), Verdict (engine/verdict.go), Cache (Key: engine/cache/key.go and
--             engine/cachekey.go; Entry: engine/cacheentry.go; Reads: engine/cachereads.go; Serve:
--             engine/cache.go; Prune: engine/cache/prune.go; Ledger: engine/cache/ledger.go; Dir: engine/cache/dir.go), Whole (the prepare and RunDocument of engine/engine.go, which put the
--             passes, the findings and the verdict together), Spec (the runs of engine/engine.go that
--             compile a spec, with the codes of engine/diag.go)
--   Compilers compilers: the registry (compilers.go), Detect (the detection and the limit of a source,
--             compilers.go), Contract (contract.go)
--   Compile   compilers/compile: Types (types.go, and spaceOf of ids.go), Registry (promise.go,
--             settle.go and the Finish of types.go, around the Types), Ids (ids.go)
--   Barrier   barrier: Text (the clip of text.go)
--   Merge     compilers/openapi/internal/merge: Constraints and Keywords (constraints.go), Numbers
--             (constraints.go and multiple.go), Admits (admitsconstraints.go), Visibility
--             (visibility.go), Nullability (nullability.go), Formats
--             (the UUIDs, clock times, offsets, durations and URI bytes of formats.go), Bounds
--             (bounds.go)
--
-- How code is modelled. A Go function is a function of its name in lower case with underscores; an
-- error is a value of a result type that keeps what distinguishes the error and not its sentence; a
-- string is the list of its bytes; a pointer to a value that may be nil is an option. An int64 is an
-- integer that `int64` of Base/Int reduces to 64 bits after each sum that the code takes; the totals of
-- the cache directory are kept below 2 ^ 64, where what is not below 2 ^ 63 is negative. A map that
-- a loop fills is an association list or a membership test. A loop is structural recursion over the
-- list that it ranges over. The printing of a number and Euclid's algorithm of Base/Format run on fuel:
-- it is one more than a number that each of their rounds makes smaller. The loops of isSubtype
-- and exposedWalk have their budget for fuel, since each round takes a step of it. The rounds of fulfil run on fuel that the
-- caller of the model gives, and come to no result where it is too little: one round more than there
-- are coordinates to promise is enough. A varint has nine bytes that may be followed by another,
-- which hold every 64-bit number.
--
-- A closure that shares the registry of a compile is a name for a function of the registry; a compile
-- that reads documents is the tree of the reads that it may make. What a directory of entries lists and
-- removes, SHA-256 and the JSON of documents are parameters.
--
-- A run of a spec asks the registry which compiler takes it, holds what that compiler returns to the
-- contract, and runs the passes over the document. A compiler is a record of its methods, each call of
-- which may panic; what it parsed, the options that it reads and its errors are types of which nothing
-- is asked. An engine may have a cache. What a cache makes of a run that takes part in it is a function of
-- the options, the plan, the reader, the source and the compile in Engine/Spec, and Engine/Cache/Serve models
-- it over the reads of a compile. Whether two types of the Go library are one, and which fields a struct has, is a parameter
-- of the paths.
--
-- Stage passes the document as it is left by a pass along with what the pass returned, since a pass
-- may change the document that it was handed. The passes, the verifier of invariants, the fingerprint
-- of a document and the answers of the context are parameters of the definitions that use them: they
-- are not code of these files. A type definition and the build of one are parameters of the registry
-- in the same way; Compile/Types/Interned says what a build can do to the registry that it shares, which
-- is to read it and to call its methods. The document has the fields that the engine reads, and all the others as one
-- parameter.
--
-- Not modelled: the printing of errors; Decimal.String; the rest of barrier/text.go, which reads runes and Go types; the lowering of parsed
-- specifications, which is bound to third-party parsers; the walk over a document by reflection; the build
-- of a program (engine/cache/build.go); the rest of the IR document and the passes over it; the
-- command line.
pub mod Base
pub mod Ir
pub mod Engine
pub mod Merge
pub mod Barrier
pub mod Compile
pub mod Compilers
