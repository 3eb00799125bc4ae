-- ===== src/Go/Sort/Laws.antt =====
-- The result of a sort is a rearrangement of the slice in ascending order, for every comparison
-- that is a strict weak order; Go's `<` on strings is one.
use mathlib.Core.List.{Perm}
use mathlib.Core.List.Perm
use metrics_server.Prelude.{
  Bool, true, false, ◌≡◌, refl, List, [], ◌∷◌, arith, GoString, All, length, suc, Bool-cases, inl,
  inr,
}
use metrics_server.Go.Sort.{string_lt, insert_sorted, sort_slice, IsSorted}

pub record IsStrictOrder {ℓ} {A : Type ℓ} (less : A → A → Bool) : Type ℓ where
  pub asymm : (x y : A) → less x y ≡ true → less y x ≡ false
  -- "not less" is transitive
  pub trans : (x y z : A) → less y x ≡ false → less z y ≡ false → less z x ≡ false

module _ {ℓ} {A : Type ℓ} (less : A → A → Bool) where
  insert_sorted-perm : (x : A) (ys : List A) → Perm (insert_sorted less x ys) (x ∷ ys)
  unfolding insert_sorted
  insert_sorted-perm x [] = Perm.rfl
  insert_sorted-perm x (y ∷ ys) = elim (Bool-cases (less x y)) [
    | inl e ↦ rw (e, insert_sorted) Perm.rfl
    | inr e ↦
        rw (e, insert_sorted)
          (Perm.trans (Perm.cons y (insert_sorted-perm x ys)) (Perm.swap x y ys))
  ]

  pub sort_slice-perm : (xs : List A) → Perm (sort_slice less xs) xs
  unfolding sort_slice
  sort_slice-perm [] = Perm.rfl
  sort_slice-perm (x ∷ xs) =
      Perm.trans (insert_sorted-perm x (sort_slice less xs)) (Perm.cons x (sort_slice-perm xs))

  insert_sorted-All {κ} :
      (P : A → Type κ) (x : A) (ys : List A) → P x → All P ys → All P (insert_sorted less x ys)
  unfolding insert_sorted
  insert_sorted-All P x [] p h = (p, tt)
  insert_sorted-All P x (y ∷ ys) p h = elim (Bool-cases (less x y)) [
    | inl e ↦ rw (e, insert_sorted) (p, h)
    | inr e ↦ rw (e, insert_sorted) (h.0, insert_sorted-All P x ys p h.1)
  ]

  pub sort_slice-All {κ} : (P : A → Type κ) (xs : List A) → All P xs → All P (sort_slice less xs)
  unfolding sort_slice
  sort_slice-All P [] h = h
  sort_slice-All P (x ∷ xs) h =
      insert_sorted-All P x (sort_slice less xs) h.0 (sort_slice-All P xs h.1)

  length-insert_sorted : (x : A) (ys : List A) → length (insert_sorted less x ys) ≡ suc (length ys)
  unfolding insert_sorted
  length-insert_sorted x [] = refl
  length-insert_sorted x (y ∷ ys) = ground (arith, length-insert_sorted x ys)

  pub length-sort_slice : (xs : List A) → length (sort_slice less xs) ≡ length xs
  unfolding sort_slice
  length-sort_slice [] = refl
  length-sort_slice (x ∷ xs) =
      ground (arith, length-insert_sorted x (sort_slice less xs), length-sort_slice xs)

  pub sort_slice-nil : sort_slice less [] ≡ []
  unfolding sort_slice
  sort_slice-nil = refl

  pub sort_slice-single : (x : A) → sort_slice less (x ∷ []) ≡ x ∷ []
  unfolding sort_slice insert_sorted
  sort_slice-single x = refl

module _ {ℓ} {A : Type ℓ} {less : A → A → Bool} (order : IsStrictOrder less) where
  not_below-All :
      (x y : A) (ys : List A)
      → less y x ≡ false
      → All (λ z. less z y ≡ false) ys
      → All (λ z. less z x ≡ false) ys
  not_below-All x y [] h k = tt
  not_below-All x y (z ∷ zs) h k = (order.trans x y z h k.0, not_below-All x y zs h k.1)

  insert_sorted-IsSorted :
      (x : A) (ys : List A) → IsSorted less ys → IsSorted less (insert_sorted less x ys)
  unfolding insert_sorted
  insert_sorted-IsSorted x [] s = (tt, tt)
  insert_sorted-IsSorted x (y ∷ ys) s = elim (Bool-cases (less x y)) [
    | inl e ↦
        let h = order.asymm x y e in rw (e, insert_sorted) ((h, not_below-All x y ys h s.0), s)
    | inr e ↦
        rw (e, insert_sorted)
          (
            insert_sorted-All less (λ z. less z y ≡ false) x ys e s.0,
            insert_sorted-IsSorted x ys s.1,
          )
  ]

  pub sort_slice-IsSorted : (xs : List A) → IsSorted less (sort_slice less xs)
  unfolding sort_slice
  sort_slice-IsSorted [] = tt
  sort_slice-IsSorted (x ∷ xs) =
      insert_sorted-IsSorted x (sort_slice less xs) (sort_slice-IsSorted xs)

string_lt_asymm : (s t : GoString) → string_lt s t ≡ true → string_lt t s ≡ false
unfolding string_lt
string_lt_asymm [] [] h = refl
string_lt_asymm [] (b ∷ bs) h = refl
string_lt_asymm (a ∷ as') [] h = cc
string_lt_asymm (a ∷ as') (b ∷ bs) h = ground (arith, string_lt_asymm as' bs)

string_lt_trans :
    (s t u : GoString) → string_lt t s ≡ false → string_lt u t ≡ false → string_lt u s ≡ false
unfolding string_lt
string_lt_trans [] [] u h k = k
string_lt_trans [] (b ∷ bs) [] h k = refl
string_lt_trans [] (b ∷ bs) (c ∷ cs) h k = refl
string_lt_trans (a ∷ as') [] u h k = cc
string_lt_trans (a ∷ as') (b ∷ bs) [] h k = cc
string_lt_trans (a ∷ as') (b ∷ bs) (c ∷ cs) h k = ground (arith, string_lt_trans as' bs cs)

pub string_lt-IsStrictOrder : IsStrictOrder string_lt
string_lt-IsStrictOrder = record { asymm = string_lt_asymm; trans = string_lt_trans }

-- A byte order decides: strings of which neither is less are equal.
pub string_lt_total : (s t : GoString) → string_lt s t ≡ false → string_lt t s ≡ false → s ≡ t
unfolding string_lt
string_lt_total [] [] h k = refl
string_lt_total [] (b ∷ bs) h k = cc
string_lt_total (a ∷ as') [] h k = cc
string_lt_total (a ∷ as') (b ∷ bs) h k = ground (arith, string_lt_total as' bs)
