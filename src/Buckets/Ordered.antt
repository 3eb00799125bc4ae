-- ===== src/Buckets/Ordered.antt =====
-- Buckets in increasing order, and where an element of a list is found.
use mathlib.Core.Path.{subst}
use mathlib.Core.Option.{some-injective}
use metrics_server.Prelude.{
  ◌≡◌, refl, List, [], ◌∷◌, ◌++◌, All, some, inl, inr, true, arith, length, last?, get_elem?, In,
}
use metrics_server.Go.Float.{Floats}

module _ {F : Type 0} (fl : Floats F) where
  -- What a histogram demands of its buckets.
  abbrev pub Increasing : List F → Type 0
  Increasing [] = Unit
  Increasing (x ∷ []) = Unit
  Increasing (x ∷ y ∷ xs) = (fl.lt x y ≡ true) × Increasing (y ∷ xs)

  -- Two lists, of which the first ends below all that the second begins with.
  pub Increasing-append :
      (xs : List F) (m : F) (ys : List F)
      → Increasing xs
      → last? xs ≡ some m
      → Increasing (m ∷ ys)
      → Increasing (xs ++ ys)
  Increasing-append [] m ys h e k = absurd (cc)
  Increasing-append (x ∷ []) m [] h e k = tt
  Increasing-append (x ∷ []) m (y ∷ ys) h e k = (ground (arith, k.0), k.1)
  Increasing-append (x ∷ z ∷ xs) m ys h e k = (h.0, Increasing-append (z ∷ xs) m ys h.1 e k)

  pub Increasing-insert :
      (before : List F) (t bucket : F) (after : List F)
      → Increasing (before ++ bucket ∷ after)
      → ((b : F) → last? before ≡ some b → fl.lt b t ≡ true)
      → fl.lt t bucket ≡ true
      → Increasing (before ++ t ∷ bucket ∷ after)
  Increasing-insert [] t bucket after h below above = (above, h)
  Increasing-insert (b ∷ []) t bucket after h below above = (below b refl, (above, h.1))
  Increasing-insert (b ∷ c ∷ before) t bucket after h below above =
      (h.0, Increasing-insert (c ∷ before) t bucket after h.1 below above)

pub get_elem-last :
    {F : Type 0} (x : F) (xs ys : List F) → get_elem? ((x ∷ xs) ++ ys) (length xs) ≡ last? (x ∷ xs)
get_elem-last x [] ys = refl
get_elem-last x (y ∷ xs) ys = get_elem-last y xs ys

pub last_cons : {F : Type 0} (x : F) (xs : List F) → (m : F) × (last? (x ∷ xs) ≡ some m)
last_cons x [] = (x, refl)
last_cons x (y ∷ xs) = last_cons y xs

pub In-right : {F : Type 0} (a : F) (xs ys : List F) → In a ys → In a (xs ++ ys)
In-right a [] ys h = h
In-right a (x ∷ xs) ys h = inr (In-right a xs ys h)

pub In-left : {F : Type 0} (a : F) (xs ys : List F) → In a xs → In a (xs ++ ys)
In-left a [] ys h = absurd h
In-left a (x ∷ xs) ys (inl h) = inl h
In-left a (x ∷ xs) ys (inr h) = inr (In-left a xs ys h)

pub In-last : {F : Type 0} (xs : List F) (m : F) → last? xs ≡ some m → In m xs
In-last [] m e = absurd (cc)
In-last (x ∷ []) m e = inl (cc)
In-last (x ∷ y ∷ xs) m e = inr (In-last (y ∷ xs) m e)

pub All-last :
    {F : Type 0} (P : F → Type 0) (xs : List F) (b : F) → All P xs → last? xs ≡ some b → P b
All-last P [] b h e = absurd (cc)
All-last P (x ∷ []) b h e = subst P (some-injective x b e) h.0
All-last P (x ∷ y ∷ xs) b h e = All-last P (y ∷ xs) b h.1 e

pub All-left : {F : Type 0} (P : F → Type 0) (xs ys : List F) → All P (xs ++ ys) → All P xs
All-left P [] ys h = tt
All-left P (x ∷ xs) ys h = (h.0, All-left P xs ys h.1)
