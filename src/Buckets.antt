-- ===== src/Buckets.antt =====
-- pkg/utils/monitoring.go: the histogram buckets around a time limit. metrics.DefBuckets is
-- a parameter; `none` is the panic of an index out of range.
pub mod Found
pub mod Ordered
pub mod Near
pub mod Spread
use metrics_server.Prelude.{
  ℕ, suc, ◌-◌, Option, none, some, List, [], ◌∷◌, ◌++◌, Bool, true, false, ltb, if◌then◌else◌,
  ◌>>=?◌, head?, last?, get_elem?, take, drop,
}
use metrics_server.Prelude.Int.{pos}
use metrics_server.Go.Time.{Duration, second}
use metrics_server.Go.Float.{Floats}

module _ {F : Type 0} (fl : Floats F) where
  open fl use {constant, of_int64, add, sub, mul, div, lt}

  abbrev pub timeout_seconds : Duration → F
  timeout_seconds scrape_timeout = div (of_int64 scrape_timeout) (of_int64 (pos second))

  -- The variables `i` and `bucket` after the loop, which `found` holds before it; `n` counts rounds.
  pub find_bucket : F → ℕ → List F → ℕ × F → ℕ × F
  find_bucket timeout n [] found = found
  find_bucket timeout n (bucket ∷ buckets) found =
      let rest = find_bucket timeout (suc n) buckets (n, bucket) in
      if lt timeout bucket then (n, bucket) else rest

  -- `i > 0 && timeoutSeconds-buckets[i-1] < buckets[0]`
  abbrev pub is_near_below : F → ℕ → F → List F → Option Bool
  is_near_below timeout i first buckets =
      let near = get_elem? buckets (i - 1) >>=? λ below. some (lt (sub timeout below) first) in
      if ltb 0 i then near else some false

  -- The condition of the inner `if`
  abbrev pub is_near : F → ℕ × F → F → List F → Option Bool
  is_near timeout (i, bucket) first buckets =
      if lt (sub bucket timeout) first then some true else is_near_below timeout i first buckets

  abbrev pub halfway : F → F → F
  halfway max timeout = add max (div (sub timeout max) (constant 2 0))

  -- The branch for a limit below the greatest bucket
  pub insert_timeout : F → F → List F → Option (List F)
  unfolding find_bucket
  insert_timeout timeout first buckets =
      let found = find_bucket timeout 0 buckets (0, constant 0 0) in
      is_near timeout found first buckets >>=? λ near.
      some (if near then buckets else take found.0 buckets ++ timeout ∷ drop found.0 buckets)

  unfoldable pub buckets_for_scrape_duration : List F → Duration → Option (List F)
  unfolding insert_timeout
  buckets_for_scrape_duration buckets scrape_timeout =
      let timeout = timeout_seconds scrape_timeout in
      last? buckets >>=? λ max. head? buckets >>=? λ first.
      if lt max timeout
      then some (
          buckets
          ++ halfway max timeout
            ∷ timeout
            ∷ mul timeout (constant 15 1)
            ∷ mul timeout (constant 2 0)
            ∷ [])
      else if lt timeout max
      then insert_timeout timeout first buckets
      else some buckets
