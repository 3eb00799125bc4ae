-- ===== src/Bytes/Laws.antt =====
-- Searches in texts of known parts.
use metrics_server.Prelude.{
  ℕ, suc, ◌+◌, ◌≡◌, refl, Option, none, some, [], ◌∷◌, ◌++◌, true, false, arith, eqb, GoString, All,
  length, every, not,
}
use metrics_server.Bytes.{has_prefix, index, index_byte}

-- The byte does not stand in the text.
abbrev pub Lacks : ℕ → GoString → Type 0
Lacks b = All (λ c. eqb c b ≡ false)

pub index_byte_first :
    (s rest : GoString) (b : ℕ) → Lacks b s → index_byte (s ++ b ∷ rest) b ≡ some (length s)
unfolding index_byte
index_byte_first [] rest b h = ground arith
index_byte_first (c ∷ s) rest b h = ground (arith, index_byte_first s rest b h.1)

pub index_byte-none : (s : GoString) (b : ℕ) → Lacks b s → index_byte s b ≡ none
unfolding index_byte
index_byte-none [] b h = refl
index_byte-none (c ∷ s) b h = ground (arith, index_byte-none s b h.1)

pub has_prefix-append : (s t : GoString) → has_prefix (s ++ t) s ≡ true
unfolding has_prefix
has_prefix-append [] t = refl
has_prefix-append (c ∷ s) t = ground (arith, has_prefix-append s t)

-- A pattern `w="` cannot begin within a value that has neither `=` nor `"`.
no_match_in_value :
    (w x rest : GoString) (quote equals : ℕ)
    → Lacks quote w
    → Lacks equals x
    → eqb quote equals ≡ false
    → has_prefix (x ++ quote ∷ rest) (w ++ equals ∷ quote ∷ []) ≡ false
unfolding has_prefix
no_match_in_value [] [] rest q e hw hx n = ground arith
no_match_in_value [] (c ∷ x) rest q e hw hx n = ground arith
no_match_in_value (a ∷ w) [] rest q e hw hx n = ground arith
no_match_in_value (a ∷ w) (c ∷ x) rest q e hw hx n =
    ground (arith, no_match_in_value w x rest q e hw.1 hx.1 n)

abbrev pub shift : ℕ → Option ℕ → Option ℕ
shift n none = none
shift n (some i) = some (n + i)

-- So a search for `w="` goes past such a value and its closing quote.
pub index-skip_value :
    (w x rest : GoString) (quote equals : ℕ)
    → Lacks quote w
    → Lacks equals x
    → eqb quote equals ≡ false
    → index (x ++ quote ∷ rest) (w ++ equals ∷ quote ∷ [])
      ≡ shift (suc (length x)) (index rest (w ++ equals ∷ quote ∷ []))
unfolding index
index-skip_value w [] rest q e hw hx n = ground (arith, no_match_in_value w [] rest q e hw hx n)
index-skip_value w (c ∷ x) rest q e hw hx n =
    ground
      (arith, no_match_in_value w (c ∷ x) rest q e hw hx n, index-skip_value w x rest q e hw hx.1 n)

-- For a text that is given, the check runs.
pub Lacks-of_check : (b : ℕ) (s : GoString) → every (λ c. not (eqb c b)) s ≡ true → Lacks b s
Lacks-of_check b [] h = tt
Lacks-of_check b (c ∷ s) h = (ground arith, Lacks-of_check b s (ground arith))
