-- ===== src/Bytes.antt =====
-- What the decoder uses of package bytes, on byte sequences.
pub mod Laws
use metrics_server.Prelude.{
  ℕ, suc, Option, none, some, List, [], ◌∷◌, Bool, true, false, ◌&&◌, if◌then◌else◌, eqb, GoString,
}

-- `bytes.HasPrefix(s, prefix)`
unfoldable pub has_prefix : GoString → GoString → Bool
has_prefix s [] = true
has_prefix [] (p ∷ ps) = false
has_prefix (c ∷ s) (p ∷ ps) = eqb c p && has_prefix s ps

-- `bytes.Index(s, sep)`, with `none` for -1
unfoldable pub index : GoString → GoString → Option ℕ
unfolding has_prefix
index [] sep = if has_prefix [] sep then some 0 else none
index (c ∷ s) sep =
    let rest = index s sep in
    if has_prefix (c ∷ s) sep then some 0 else elim rest [ none ↦ none | some i ↦ some (suc i) ]

-- `bytes.IndexByte(s, c)`, with `none` for -1
unfoldable pub index_byte : GoString → ℕ → Option ℕ
index_byte [] b = none
index_byte (c ∷ s) b =
    let rest = index_byte s b in
    if eqb c b then some 0 else elim rest [ none ↦ none | some i ↦ some (suc i) ]

-- `s[i]`, with `none` out of range
abbrev pub byte_at : GoString → ℕ → Option ℕ
byte_at [] i = none
byte_at (c ∷ s) ℕ.zero = some c
byte_at (c ∷ s) (suc i) = byte_at s i
