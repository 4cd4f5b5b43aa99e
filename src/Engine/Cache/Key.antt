-- ===== src/Engine/Cache/Key.antt =====
-- engine/cache/key.go and the deriveKey of engine/cachekey.go: the text that a key is the hash of.
-- `hash` is SHA-256, a parameter.
pub mod Framed
pub mod Inputs
use morphic.Base.{
  ℕ, zero, suc, ◌+◌, ◌/◌, ◌%◌, List, [], ◌∷◌, ◌++◌, Bytes, Table, Ordering, compare_text,
  if◌then◌else◌, ltb, length,
}
use morphic.Base.Format.{format_nat}

-- `binary.AppendUvarint` on a 64-bit number: seven bits a byte, the lowest first, the high bit set on all
-- bytes but the last. A byte past the ninth is the last.
unfoldable pub uvarint_bytes : ℕ → ℕ → Bytes
uvarint_bytes zero n = (n % 256) ∷ []
uvarint_bytes (suc more) n =
    let rest = uvarint_bytes more (n / 128) in if ltb n 128 then n ∷ [] else (n % 128 + 128) ∷ rest

unfoldable pub uvarint : ℕ → Bytes
uvarint n = uvarint_bytes 9 n

-- The loop of `KeyOf`.
unfoldable pub frame : List Bytes → Bytes
frame [] = []
frame (field ∷ fields) = uvarint (length field) ++ (field ++ frame fields)

unfoldable pub key_of : {K : Type 0} → (Bytes → K) → List Bytes → K
key_of hash fields = hash (frame fields)

pub record KeyInputs : Type 0 where
  pub build : Bytes
  pub ir_version : Bytes
  pub dir : Bytes
  pub path : Bytes
  pub spec_hash : Bytes
  pub passes : List Bytes
  pub settings : Table Bytes

-- `slices.Sorted(maps.Keys(in.Settings))`, each name with its setting.
unfoldable pub insert_setting : Bytes → Bytes → Table Bytes → Table Bytes
insert_setting n v [] = (n, v) ∷ []
insert_setting n v ((m, w) ∷ settings) =
    let rest = insert_setting n v settings in
    elim (compare_text n m) [ Ordering.gt ↦ (m, w) ∷ rest | _ ↦ (n, v) ∷ (m, w) ∷ settings ]

unfoldable pub sorted_settings : Table Bytes → Table Bytes
sorted_settings [] = []
sorted_settings ((n, v) ∷ settings) = insert_setting n v (sorted_settings settings)

unfoldable pub setting_fields : Table Bytes → List Bytes
setting_fields [] = []
setting_fields ((n, v) ∷ settings) = n ∷ v ∷ setting_fields settings

unfoldable pub key_fields : KeyInputs → List Bytes
key_fields x =
    x.build
    ∷ x.ir_version
    ∷ x.dir
    ∷ x.path
    ∷ x.spec_hash
    ∷ format_nat (length x.passes)
    ∷ (x.passes ++ setting_fields (sorted_settings x.settings))

unfoldable pub derive_key : {K : Type 0} → (Bytes → K) → KeyInputs → K
derive_key hash x = key_of hash (key_fields x)
