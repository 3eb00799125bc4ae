-- ===== src/Buckets/Near.antt =====
-- A limit below the greatest default bucket of pkg/utils/monitoring.go.
use metrics_server.Prelude.{
  ◌≡◌, refl, sym, ◌∙◌, List, [], ◌∷◌, ◌++◌, All, some, Bool-cases, inl, inr, ◌⊎◌, true, false,
  arith, length, last?, In, Bool, take-append, drop-append, if◌then◌else◌,
}
use metrics_server.Go.Float.{Floats}
use mathlib.Core.Option.{some-injective}
use metrics_server.Buckets.{is_near, is_near_below, insert_timeout}
use metrics_server.Buckets.Found.{find_bucket-split}
use metrics_server.Buckets.Ordered.{
  Increasing, Increasing-insert, get_elem-last, last_cons, In-left, In-right, In-last, All-last,
}

module _ {F : Type 0} (fl : Floats F) where
  open fl use {lt, sub, mul, constant}

  -- `b` is closer to the limit than the first bucket is to zero.
  abbrev pub IsNear : F → F → F → Type 0
  IsNear first t b = (lt (sub b t) first ≡ true) ⊎ (lt (sub t b) first ≡ true)

  -- Numbers of which neither is less are equal, and their difference is below the first bucket.
  abbrev pub IsComparable : F → F → F → Type 0
  IsComparable first t b = lt t b ≡ false → lt b t ≡ false → lt (sub t b) first ≡ true

  -- The default buckets with at most a few more, in order, one of them near or at the limit.
  pub record IsSpread (first : F) (t : F) (buckets made : List F) : Type 0 where
    pub before : List F
    pub extra : List F
    pub after : List F
    pub kept : buckets ≡ before ++ after
    pub placed : made ≡ before ++ (extra ++ after)
    pub increasing : Increasing fl made
    pub around : In t made ⊎ ((b : F) × In b made × IsNear first t b)

  pub same :
      (first t : F) (buckets : List F) (b : F)
      → Increasing fl buckets
      → In b buckets
      → IsNear first t b
      → IsSpread first t buckets buckets
  same first t buckets b h b_in near = record {
    before = [];
    extra = [];
    after = buckets;
    kept = refl;
    placed = refl;
    increasing = h;
    around = inr (b, b_in, near);
  }

  module _ (first t bucket : F) (after : List F) where
    abbrev pub around_split : List F → List F
    around_split before = before ++ bucket ∷ after

    insert_timeout-at :
        (before : List F) (near : Bool)
        → All (λ b. lt t b ≡ false) before
        → lt t bucket ≡ true
        → is_near fl t (length before, bucket) first (around_split before) ≡ some near
        → insert_timeout fl t first (around_split before)
          ≡ some (if near then around_split before else before ++ t ∷ bucket ∷ after)
    unfolding insert_timeout
    insert_timeout-at before near not_above above e =
        rw
          (
            find_bucket-split fl t before bucket after (0, constant 0 0) not_above above,
            e,
            take-append before (bucket ∷ after),
            drop-append before (bucket ∷ after),
          )
          refl

    -- The bucket below the place of the limit.
    is_near_below-last :
        (x : F) (xs : List F) (b : F)
        → last? (x ∷ xs) ≡ some b
        → is_near_below fl t (length (x ∷ xs)) first (around_split (x ∷ xs))
          ≡ some (lt (sub t b) first)
    is_near_below-last x xs b e = ground (arith, get_elem-last x xs (bucket ∷ after))

    IsSpread-inserted :
        (before : List F)
        → Increasing fl (around_split before)
        → ((b : F) → last? before ≡ some b → lt b t ≡ true)
        → lt t bucket ≡ true
        → IsSpread first t (around_split before) (before ++ t ∷ bucket ∷ after)
    IsSpread-inserted before h below above = record {
      before = before;
      extra = t ∷ [];
      after = bucket ∷ after;
      kept = refl;
      placed = refl;
      increasing = Increasing-insert fl before t bucket after h below above;
      around = inl (In-right t before (t ∷ bucket ∷ after) (inl refl));
    }

    -- A limit that is not near to a bucket and not below it is above it.
    above_last :
        (before : List F) (b : F)
        → All (λ b. lt t b ≡ false) before
        → All (IsComparable first t) before
        → last? before ≡ some b
        → lt (sub t b) first ≡ false
        → lt b t ≡ true
    above_last before b not_above comparable e apart = elim (Bool-cases (lt b t)) [
      | inl below ↦ below
      | inr not_below ↦
          let near =
            All-last (IsComparable first t) before b comparable e
              (All-last (λ b. lt t b ≡ false) before b not_above e) not_below in
          absurd (cc)
    ]

    -- The case of a limit far below the bucket above it.
    insert_above :
        (before : List F)
        → Increasing fl (around_split before)
        → All (λ b. lt t b ≡ false) before
        → All (IsComparable first t) before
        → lt t bucket ≡ true
        → lt (sub bucket t) first ≡ false
        → (made : List F) × (insert_timeout fl t first (around_split before) ≡ some made)
          × IsSpread first t (around_split before) made
    insert_above [] h not_above comparable above far = (
      t ∷ bucket ∷ after,
      insert_timeout-at [] false tt above (ground arith),
      IsSpread-inserted [] h (λ b e. absurd (cc)) above,
    )
    insert_above (x ∷ xs) h not_above comparable above far =
        let (b, e) = last_cons x xs in
        elim (Bool-cases (lt (sub t b) first)) [
          | inl near ↦ (
            around_split (x ∷ xs),
            insert_timeout-at (x ∷ xs) true not_above above
                (ground (arith, is_near_below-last x xs b e)),
            same first t (around_split (x ∷ xs)) b h
                (In-left b (x ∷ xs) (bucket ∷ after) (In-last (x ∷ xs) b e)) (inr near),
          )
          | inr apart ↦ (
            (x ∷ xs) ++ t ∷ bucket ∷ after,
            insert_timeout-at (x ∷ xs) false not_above above
                (ground (arith, is_near_below-last x xs b e)),
            IsSpread-inserted (x ∷ xs) h
                (λ b' e'.
                  above_last (x ∷ xs) b' not_above comparable e'
                    (rw (some-injective b' b (sym e' ∙ e)) apart))
                above,
          )
        ]

    pub insert_timeout-IsSpread :
        (before : List F)
        → Increasing fl (around_split before)
        → All (λ b. lt t b ≡ false) before
        → All (IsComparable first t) before
        → lt t bucket ≡ true
        → (made : List F) × (insert_timeout fl t first (around_split before) ≡ some made)
          × IsSpread first t (around_split before) made
    insert_timeout-IsSpread before h not_above comparable above =
        elim (Bool-cases (lt (sub bucket t) first)) [
          | inl near ↦ (
            around_split before,
            insert_timeout-at before true not_above above (ground arith),
            same first t (around_split before) bucket h
                (In-right bucket before (bucket ∷ after) (inl refl)) (inl near),
          )
          | inr far ↦ insert_above before h not_above comparable above far
        ]
