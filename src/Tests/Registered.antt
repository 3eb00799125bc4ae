-- ===== src/Tests/Registered.antt =====
-- The metrics of a server with a resolution of a minute, in a registry that keeps a list.
use metrics_server.Prelude.{
  ℕ, ◌+◌, ◌-◌, ◌*◌, ◌/◌, ◌^◌, ◌≡◌, refl, List, [], ◌∷◌, ◌++◌, GoString, str, ltb, All, arith,
}
use metrics_server.Prelude.Int.{pos_part}
use metrics_server.Go.Float.{Floats, saturate_uint64, saturate_int64}
use metrics_server.Go.Result.{ok}
use metrics_server.Buckets.{timeout_seconds}
use metrics_server.Buckets.Near.{IsComparable, IsSpread}
use metrics_server.Monitoring.{
  Metric, Registries, register_metrics, request_duration, request_total, last_request_time,
  metric_freshness, points_stored, tick_duration,
}
use metrics_server.Monitoring.Registered.{HasGoodDefaults, registered-register_metrics}
use metrics_server.Tests.Data.{minute}

-- Numbers with three decimals, none of them negative.
abbrev pub decimals : Floats ℕ
decimals = record {
  constant = λ m k. m * 1000 / 10 ^ k;
  of_uint64 = λ n. n * 1000;
  of_int64 = λ d. pos_part d * 1000;
  seconds = λ d. pos_part d / 10 ^ 6;
  add = λ x y. x + y;
  sub = λ x y. x - y;
  mul = λ x y. x * y / 1000;
  div = λ x y. x * 1000 / y;
  lt = ltb;
  to_uint64 = λ x. saturate_uint64 (x / 1000);
  to_int64 = λ x. saturate_int64 (x / 1000);
  to_uint64-lt = λ x. omega arith;
  to_int64-IsInt64 = λ x. omega arith;
}

abbrev default_rest : List ℕ
default_rest = 10 ∷ 25 ∷ 50 ∷ 100 ∷ 250 ∷ 500 ∷ 1000 ∷ 2500 ∷ 5000 ∷ 10000 ∷ []

abbrev pub metric_lists : Registries (List (Metric ℕ)) GoString ℕ decimals
metric_lists = record {
  def_buckets = 5 ∷ default_rest;
  exponential_buckets = λ start factor count. start ∷ start * factor / 1000 ∷ [];
  build_fq_name = λ namespace subsystem name. namespace ++ str "_" ++ subsystem ++ str "_" ++ name;
  build_fq_name-join = λ m h. refl;
  new_kube_registry = [];
  register = λ g m. ok (g ++ m ∷ []);
  registered = λ g. g;
  registered-new = refl;
  registered-register = λ g m good other. (g ++ m ∷ [], refl, refl);
}

comparable : (t : ℕ) (bs : List ℕ) → All (IsComparable decimals 5 t) bs
comparable t [] = tt
comparable t (b ∷ bs) = (λ h k. ground arith, comparable t bs)

abbrev good_defaults : HasGoodDefaults decimals metric_lists minute
good_defaults = record {
  first = 5;
  rest = default_rest;
  max = 10000;
  def_buckets_eq = refl;
  last_eq = refl;
  increasing = (refl, (refl, (refl, (refl, (refl, (refl, (refl, (refl, (refl, (refl, tt))))))))));
  comparable = comparable (timeout_seconds decimals minute) (5 ∷ default_rest);
  above = λ h. (refl, (refl, (refl, (refl, tt))));
  freshness = (refl, tt);
}

registered-register_metrics_example :
    (g : List (Metric ℕ)) × (buckets : List ℕ) × (register_metrics decimals metric_lists minute []
      ≡ ok g)
    × (g
        ≡ tick_duration decimals metric_lists buckets
          ∷ request_duration decimals metric_lists
          ∷ request_total decimals metric_lists
          ∷ last_request_time decimals metric_lists
          ∷ metric_freshness decimals metric_lists
          ∷ points_stored decimals metric_lists
          ∷ [])
    × IsSpread decimals 5 (timeout_seconds decimals minute) (5 ∷ default_rest) buckets
registered-register_metrics_example =
    registered-register_metrics decimals metric_lists minute good_defaults
