-- ===== src/Buckets/Found.antt =====
-- Where the loop of pkg/utils/monitoring.go stops.
use metrics_server.Prelude.{
  ℕ, suc, ◌+◌, ◌≡◌, refl, ap, ◌∙◌, List, [], ◌∷◌, ◌++◌, All, some, Bool-cases, inl, inr, true,
  false, arith, length, last?,
}
use metrics_server.Go.Float.{Floats}
use metrics_server.Buckets.{find_bucket}

module _ {F : Type 0} (fl : Floats F) (timeout : F) where
  -- The buckets up to the first that is greater than the limit.
  pub record IsSplit (buckets : List F) : Type 0 where
    pub before : List F
    pub bucket : F
    pub after : List F
    pub in_order : buckets ≡ before ++ bucket ∷ after
    pub not_above : All (λ b. fl.lt timeout b ≡ false) before
    pub above : fl.lt timeout bucket ≡ true

  pub split :
      (buckets : List F) (max : F)
      → last? buckets ≡ some max
      → fl.lt timeout max ≡ true
      → IsSplit buckets
  split [] max e h = absurd (cc)
  split (b ∷ []) max e h = record {
    before = [];
    bucket = b;
    after = [];
    in_order = refl;
    not_above = tt;
    above = ground arith;
  }
  split (b ∷ c ∷ buckets) max e h = elim (Bool-cases (fl.lt timeout b)) [
    | inl here ↦ record {
      before = [];
      bucket = b;
      after = c ∷ buckets;
      in_order = refl;
      not_above = tt;
      above = here;
    }
    | inr later ↦
        let s = split (c ∷ buckets) max e h in
        record {
          before = b ∷ s.before;
          bucket = s.bucket;
          after = s.after;
          in_order = ap (◌∷◌ b) s.in_order;
          not_above = (later, s.not_above);
          above = s.above;
        }
  ]

  pub find_bucket-append :
      (before : List F) (bucket : F) (after : List F) (n : ℕ) (found : ℕ × F)
      → All (λ b. fl.lt timeout b ≡ false) before
      → fl.lt timeout bucket ≡ true
      → find_bucket fl timeout n (before ++ bucket ∷ after) found ≡ (n + length before, bucket)
  unfolding find_bucket
  find_bucket-append [] bucket after n found h above = ground arith
  find_bucket-append (b ∷ before) bucket after n found h above =
      ground (arith, h.0, find_bucket-append before bucket after (suc n) (n, b) h.1 above)

  -- The loop stops at the bucket of a split, with its index.
  pub find_bucket-split :
      (before : List F) (bucket : F) (after : List F) (found : ℕ × F)
      → All (λ b. fl.lt timeout b ≡ false) before
      → fl.lt timeout bucket ≡ true
      → find_bucket fl timeout 0 (before ++ bucket ∷ after) found ≡ (length before, bucket)
  find_bucket-split before bucket after found h above =
      find_bucket-append before bucket after 0 found h above ∙ ground arith
