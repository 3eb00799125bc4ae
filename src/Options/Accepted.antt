-- ===== src/Options/Accepted.antt =====
-- Which flags cmd/metrics-server/app/options accepts.
use metrics_server.Prelude.{
  ℕ, ◌*◌, ◌≤◌, ◌<◌, ◌^◌, ◌≡◌, ◌↔◌, refl, ap, List, [], ◌∷◌, ◌++◌, Bool, true, false, ◌&&◌, arith,
  ◌||◌, if◌then◌else◌,
}
use metrics_server.Prelude.Int.{pos, ◌<ℤ◌, ◌≤ℤ◌, ◌*ℤ◌, wrap_int64, to_int64}
use metrics_server.Go.Time.{second}
use metrics_server.Options.{
  KubeletClientOptions, is_set, validate_kubelet, Options, validate_resolution, validate,
  logging_error,
}

-- At most one way to check the certificate of a kubelet, a client key exactly with its
-- certificate, no credentials over plain HTTP, and a positive time limit.
pub record IsConsistent (o : KubeletClientOptions) : Type 0 where
  pub ca_or_insecure : is_set o.kubelet_ca_file && o.insecure_kubelet_tls ≡ false
  pub plain_without_tls :
      o.deprecated_completely_insecure_kubelet
        && (is_set o.kubelet_ca_file || o.insecure_kubelet_tls || is_set o.kubelet_client_key_file)
      ≡ false
  pub key_with_cert : is_set o.kubelet_client_key_file ≡ is_set o.kubelet_client_cert_file
  pub positive : pos 0 <ℤ o.kubelet_request_timeout

accepted-IsConsistent : (o : KubeletClientOptions) → validate_kubelet o ≡ [] → IsConsistent o
unfolding validate_kubelet
accepted-IsConsistent o h = record {
  ca_or_insecure = ground arith;
  plain_without_tls = ground arith;
  key_with_cert = ground arith;
  positive = ground arith;
}

IsConsistent-accepted : (o : KubeletClientOptions) → IsConsistent o → validate_kubelet o ≡ []
unfolding validate_kubelet
IsConsistent-accepted o c =
    ground (arith, c.ca_or_insecure, c.plain_without_tls, c.key_with_cert, c.positive)

-- The kubelet flags are accepted exactly when they are consistent.
pub validate_kubelet_iff : (o : KubeletClientOptions) → (validate_kubelet o ≡ []) ↔ IsConsistent o
validate_kubelet_iff o = (accepted-IsConsistent o, IsConsistent-accepted o)

-- The resolution is accepted exactly when it is at least ten seconds and the time limit of a
-- request is at most nine tenths of it, where nine times the resolution is an int64.
pub validate_resolution_iff :
    (o : Options) (resolution : ℕ)
    → o.metric_resolution ≡ pos resolution
    → 9 * resolution < 2 ^ 63
    → (validate_resolution o ≡ []) ↔ (
        (10 * second ≤ resolution)
        × (o.kubelet_client.kubelet_request_timeout *ℤ pos 10 ≤ℤ pos (9 * resolution)))
unfolding validate_resolution ◌*ℤ◌ wrap_int64 to_int64
validate_resolution_iff o resolution e small = (λ h. ground arith, λ h. ground arith)

append_nil_iff : {A : Type 0} (xs ys : List A) → (xs ++ ys ≡ []) ↔ ((xs ≡ []) × (ys ≡ []))
append_nil_iff [] ys = (λ h. (refl, h), λ h. h.1)
append_nil_iff (x ∷ xs) ys = (λ h. cc, λ h. cc)

no_logging_error :
    (logging_fails : Bool)
    → (if logging_fails then logging_error ∷ [] else []) ≡ []
    → logging_fails ≡ false
no_logging_error true h = cc
no_logging_error false h = refl

pub validate-parts :
    (logging_fails : Bool) (o : Options)
    → (validate logging_fails o ≡ []) ↔ (
        (validate_kubelet o.kubelet_client ≡ [])
        × (validate_resolution o ≡ [])
        × (logging_fails ≡ false))
unfolding validate
validate-parts logging_fails o =
    let logging = if logging_fails then logging_error ∷ [] else [] in
    let outer =
      append_nil_iff (validate_kubelet o.kubelet_client ++ validate_resolution o) logging in
    let inner = append_nil_iff (validate_kubelet o.kubelet_client) (validate_resolution o) in
    (
      λ h.
          let (ab, c) = outer.0 h in
          let (a, b) = inner.0 ab in (a, b, no_logging_error logging_fails c),
      λ h.
          let (a, b, c) = h in
          outer.1 (inner.1 (a, b), ap (λ fails. if fails then logging_error ∷ [] else []) c),
    )

-- All flags together are accepted exactly when the kubelet flags are consistent, the resolution is
-- at least ten seconds, the time limit of a request is at most nine tenths of it, and the logging
-- flags are accepted; the resolution is not negative and nine times it is an int64.
pub validate_iff :
    (logging_fails : Bool) (o : Options) (resolution : ℕ)
    → o.metric_resolution ≡ pos resolution
    → 9 * resolution < 2 ^ 63
    → (validate logging_fails o ≡ []) ↔ (
        IsConsistent o.kubelet_client
        × (10 * second ≤ resolution)
        × (o.kubelet_client.kubelet_request_timeout *ℤ pos 10 ≤ℤ pos (9 * resolution))
        × (logging_fails ≡ false))
validate_iff logging_fails o resolution e small =
    let parts = validate-parts logging_fails o in
    let kubelet = validate_kubelet_iff o.kubelet_client in
    let timing = validate_resolution_iff o resolution e small in
    (
      λ h. let (a, b, c) = parts.0 h in let (d, f) = timing.0 b in (kubelet.0 a, d, f, c),
      λ h. let (a, d, f, c) = h in parts.1 (kubelet.1 a, timing.1 (d, f), c),
    )
