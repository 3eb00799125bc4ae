-- ===== src/Storage/Types/Usage.antt =====
-- What resourceUsage and uint64Quantity of pkg/storage/types.go compute.
use metrics_server.Prelude.{
  ℕ, ◌+◌, ◌-◌, ◌*◌, ◌/◌, ◌^◌, ◌≤◌, ◌<◌, ◌≡◌, ◌≢◌, refl, ◌↔◌, inl, inr, arith, ltb, Bool-cases,
  ltb→lt, [], ◌∷◌,
}
use metrics_server.Prelude.Dict.{keys}
use metrics_server.Prelude.Int.{ℤ, pos, negsuc, to_int64_small, ◌+ℤ◌}
use metrics_server.Go.Time.{sub}
use metrics_server.Go.Float.{Floats}
use metrics_server.Go.Result.{ok, err}
use metrics_server.Kube.{
  Quantities, Format, decimal_si, binary_si, ResourceList, resource_cpu, resource_memory,
}
use metrics_server.Storage.Types.{
  MetricsPoint, TimeInfo, UsageError, max_int64, uint64_quantity, cpu_usage, resource_usage,
}

zero_scale : (scale : ℤ) → pos 0 +ℤ scale ≡ scale
unfolding ◌+ℤ◌
zero_scale (pos n) = ground arith
zero_scale (negsuc n) = ground arith

module _ {Q : Type 0} (qs : Quantities Q) where
  -- The quantity of a uint64 stands for the value in an int64 mantissa: the value itself up to the
  -- greatest int64, and above it the value with its last decimal digit, and no other, dropped.
  pub uint64_quantity_fits :
      (val : ℕ) (format : Format) (scale : ℤ)
      → val < 2 ^ 64
      → (mantissa digits : ℕ) × (uint64_quantity qs val format scale
          ≡ qs.with_format (qs.new_scaled_quantity (pos mantissa) (pos digits +ℤ scale)) format)
        × (mantissa ≤ max_int64)
        × (mantissa * 10 ^ digits ≤ val)
        × (val < (mantissa + 1) * 10 ^ digits)
        × (digits ≤ 1)
        × ((val ≤ max_int64) ↔ (digits ≡ 0))
  unfolding uint64_quantity
  uint64_quantity_fits val format scale h = elim (Bool-cases (ltb max_int64 val)) [
    | inl big ↦
        let large = ltb→lt _ _ big in
        (
          val / 10,
          1,
          ground (arith, to_int64_small (val / 10)),
          omega arith,
          omega arith,
          omega arith,
          omega arith,
          omega arith,
        )
    | inr small ↦
        let fits : val ≤ max_int64 = ground arith in
        (
          val,
          0,
          ground (arith, to_int64_small val, zero_scale scale),
          fits,
          omega arith,
          omega arith,
          omega arith,
          (λ _. refl, λ _. fits),
        )
  ]

module _ {F Q : Type 0} (fl : Floats F) (qs : Quantities Q) where
  -- The CPU time used between two points over the seconds between them.
  abbrev pub used_per_second : MetricsPoint → MetricsPoint → ℕ
  used_per_second p q = fl.to_uint64 (
      fl.div (fl.of_uint64 (q.cumulative_cpu_used - p.cumulative_cpu_used))
        (fl.seconds (sub q.timestamp p.timestamp)))

  -- The usage between two points, in nanocores and bytes.
  abbrev pub measured_usage : MetricsPoint → MetricsPoint → ResourceList Q
  measured_usage p q =
      (resource_cpu, uint64_quantity qs (used_per_second p q) decimal_si (negsuc 8))
      ∷ (resource_memory, uint64_quantity qs q.memory_usage binary_si (pos 0))
      ∷ []

  pub resource_usage-measured :
      (p q : MetricsPoint)
      → p.start_time ≤ q.start_time
      → p.cumulative_cpu_used ≤ q.cumulative_cpu_used
      → resource_usage fl qs q p
        ≡ ok (
          measured_usage p q,
          record { timestamp = q.timestamp; window = sub q.timestamp p.timestamp },
        )
  unfolding resource_usage cpu_usage
  resource_usage-measured p q h k = ground arith

  -- Whatever is computed is this usage.
  pub resource_usage_exact :
      (last prev : MetricsPoint) (usage : ResourceList Q) (info : TimeInfo)
      → resource_usage fl qs last prev ≡ ok (usage, info)
      → usage ≡ measured_usage prev last
  unfolding resource_usage cpu_usage
  resource_usage_exact last prev usage info h = ground arith

  -- Usage is only computed for two points of which the start time and the counter have not
  -- decreased; its window is the time between the points, and its timestamp that of the later.
  pub resource_usage-ok :
      (last prev : MetricsPoint) (usage : ResourceList Q) (info : TimeInfo)
      → resource_usage fl qs last prev ≡ ok (usage, info)
      → (prev.start_time ≤ last.start_time)
        × (prev.cumulative_cpu_used ≤ last.cumulative_cpu_used)
        × (info.timestamp ≡ last.timestamp)
        × (info.window ≡ sub last.timestamp prev.timestamp)
  unfolding resource_usage
  resource_usage-ok last prev usage info h = ground arith

  pub resource_usage_computed :
      (last prev : MetricsPoint)
      → prev.start_time ≤ last.start_time
      → prev.cumulative_cpu_used ≤ last.cumulative_cpu_used
      → (e : UsageError) → resource_usage fl qs last prev ≢ err e
  unfolding resource_usage
  resource_usage_computed last prev h k e r = ground arith

  -- What is computed has the two resources, in this order.
  pub resource_usage-keys :
      (last prev : MetricsPoint) (usage : ResourceList Q) (info : TimeInfo)
      → resource_usage fl qs last prev ≡ ok (usage, info)
      → keys usage ≡ resource_cpu ∷ resource_memory ∷ []
  unfolding resource_usage
  resource_usage-keys last prev usage info h =
      let same : usage
          ≡ (resource_cpu, uint64_quantity qs (cpu_usage fl qs last prev) decimal_si (negsuc 8))
            ∷ (resource_memory, uint64_quantity qs last.memory_usage binary_si (pos 0))
            ∷ [] =
        ground arith in
      rw same refl
