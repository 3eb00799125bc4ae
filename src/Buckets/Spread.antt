-- ===== src/Buckets/Spread.antt =====
-- What pkg/utils/monitoring.go makes of the default buckets.
use metrics_server.Prelude.{
  ◌≡◌, refl, sym, ap, List, [], ◌∷◌, ◌++◌, All, some, Bool-cases, inl, inr, true, last?,
}
use metrics_server.Go.Time.{Duration}
use metrics_server.Go.Float.{Floats}
use mathlib.Core.Path.{subst}
use mathlib.Core.List.{append-nil}
use metrics_server.Buckets.{timeout_seconds, insert_timeout, buckets_for_scrape_duration}
use metrics_server.Buckets.Found.{split}
use metrics_server.Buckets.Ordered.{
  Increasing, Increasing-append, In-right, In-last, All-left, All-last,
}
use metrics_server.Buckets.Near.{IsComparable, IsSpread, same, insert_timeout-IsSpread}

module _ {F : Type 0} (fl : Floats F) where
  open fl use {lt, add, sub, mul, div, constant}

  -- The four buckets added above the greatest.
  abbrev pub above_buckets : F → F → List F
  above_buckets max t =
      add max (div (sub t max) (constant 2 0))
      ∷ t
      ∷ mul t (constant 15 1)
      ∷ mul t (constant 2 0)
      ∷ []

  overflow_buckets :
      (first max t : F) (buckets : List F)
      → last? buckets ≡ some max
      → Increasing fl buckets
      → Increasing fl (max ∷ above_buckets max t)
      → IsSpread fl first t buckets (buckets ++ above_buckets max t)
  overflow_buckets first max t buckets e h k = record {
    before = buckets;
    extra = above_buckets max t;
    after = [];
    kept = sym (append-nil buckets);
    placed = ap (◌++◌ buckets) (sym (append-nil (above_buckets max t)));
    increasing = Increasing-append fl buckets max (above_buckets max t) h e k;
    around = inl (In-right t buckets (above_buckets max t) (inr (inl refl)));
  }

  split_buckets :
      (first t max : F) (buckets : List F)
      → last? buckets ≡ some max
      → lt t max ≡ true
      → Increasing fl buckets
      → All (IsComparable fl first t) buckets
      → (made : List F) × (insert_timeout fl t first buckets ≡ some made)
        × IsSpread fl first t buckets made
  split_buckets first t max buckets e below h comparable =
      let s = split fl t buckets max e below in
      subst
        (λ bs.
          Increasing fl bs
          → All (IsComparable fl first t) bs
          → (made : List F) × (insert_timeout fl t first bs ≡ some made)
            × IsSpread fl first t bs made)
        (sym s.in_order)
        (λ h comparable.
          insert_timeout-IsSpread fl first t s.bucket s.after s.before h s.not_above
            (All-left (IsComparable fl first t) s.before (s.bucket ∷ s.after) comparable) s.above)
        h comparable

  -- Increasing default buckets stay increasing: the histogram keeps all of them, and the limit is
  -- one of its buckets or nearer to one than the first is to zero. Two numbers of which neither is
  -- less have a difference below the first bucket, and the four buckets above the greatest are in
  -- order.
  pub buckets_for_scrape_duration-IsSpread :
      (first max : F) (rest : List F) (limit : Duration)
      → let t = timeout_seconds fl limit in
        last? (first ∷ rest) ≡ some max
        → Increasing fl (first ∷ rest)
        → All (IsComparable fl first t) (first ∷ rest)
        → (lt max t ≡ true → Increasing fl (max ∷ above_buckets max t))
        → (made : List F) × (buckets_for_scrape_duration fl (first ∷ rest) limit ≡ some made)
          × IsSpread fl first t (first ∷ rest) made
  unfolding buckets_for_scrape_duration
  buckets_for_scrape_duration-IsSpread first max rest limit e h comparable above =
      let t = timeout_seconds fl limit in
      elim (Bool-cases (lt max t)) [
        | inl over ↦ (
          (first ∷ rest) ++ above_buckets max t,
          rw (e, over) refl,
          overflow_buckets first max t (first ∷ rest) e h (above over),
        )
        | inr not_over ↦ elim (Bool-cases (lt t max)) [
          | inl below ↦
              let (made, made_eq, spread) =
                split_buckets first t max (first ∷ rest) e below h comparable in
              (made, rw (e, not_over, below) made_eq, spread)
          | inr equal ↦ (
            first ∷ rest,
            rw (e, not_over, equal) refl,
            same fl first t (first ∷ rest) max h (In-last (first ∷ rest) max e) (
                inr (
                  All-last (IsComparable fl first t) (first ∷ rest) max comparable e equal
                    not_over)),
          )
        ]
      ]
