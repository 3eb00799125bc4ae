-- ===== src/Go/Sort.antt =====
-- sort.Slice and sort.Strings: a slice is rearranged so that no element stands behind one that is
-- greater. The order of elements with equal keys is not specified; here it is that of insertion.
pub mod Laws
use metrics_server.Prelude.{
  ℕ, Bool, true, false, ◌≡◌, refl, List, [], ◌∷◌, arith, if◌then◌else◌, ltb, eqb, GoString, All,
}

-- Go's `<` on strings: byte by byte, a proper prefix before its extensions.
unfoldable pub string_lt : GoString → GoString → Bool
string_lt [] [] = false
string_lt [] (b ∷ bs) = true
string_lt (a ∷ as') [] = false
string_lt (a ∷ as') (b ∷ bs) =
    let rest = string_lt as' bs in if ltb a b then true else if eqb a b then rest else false

module _ {ℓ} {A : Type ℓ} (less : A → A → Bool) where
  insert_sorted : A → List A → List A
  insert_sorted x [] = x ∷ []
  insert_sorted x (y ∷ ys) =
      let rest = insert_sorted x ys in if less x y then x ∷ y ∷ ys else y ∷ rest

  unfoldable pub sort_slice : List A → List A
  unfolding insert_sorted
  sort_slice [] = []
  sort_slice (x ∷ xs) = insert_sorted x (sort_slice xs)

  -- No element is less than one that stands before it.
  abbrev pub IsSorted : List A → Type ℓ
  IsSorted [] = Unit
  IsSorted (x ∷ xs) = All (λ y. less y x ≡ false) xs × IsSorted xs
