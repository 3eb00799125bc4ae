-- ===== src/Server/Ready.antt =====
-- When the endpoints readyz and livez of a server pass, with the checks that RegisterProbes of
-- pkg/server/server.go adds.
use metrics_server.Prelude.{
  ℕ, ◌≡◌, ◌↔◌, refl, List, [], ◌∷◌, ◌++◌, All, Bool, true, false, GoString, str, keep, not, arith,
}
use metrics_server.Prelude.Int.{pos}
use metrics_server.Prelude.Dict.{Dict, keys}
use metrics_server.Go.Time.{Time, Duration}
use metrics_server.Go.Float.{Floats}
use metrics_server.Go.Result.{ok, bind_ok}
use metrics_server.Kube.{Quantities}
use metrics_server.Storage.{ready}
use metrics_server.Server.{
  Server, probe_metric_collection_timely, probe_metric_storage_ready, probe_metric_cache_has_synced,
  check_informers,
}
use metrics_server.Server.Probes.{check_informers_lem, verdict}
use metrics_server.Server.Built.{
  Check, metric_storage_ready, metric_cache_has_synced, metric_collection_timely,
  metadata_informer_sync, Libraries, register_probes, run_check,
}

module _ {E A C F Q : Type 0} (fl : Floats F) (qs : Quantities Q) (now : ℕ → Time)
    (libraries : Libraries E A C F Q fl) where
  open libraries use {GenericServer, add_readyz_checks, add_livez_checks, add_health_checks}

  -- The checks of this program at the two endpoints: a health check is added to both.
  pub record Endpoints : Type 0 where
    pub readyz : GenericServer → List Check
    pub livez : GenericServer → List Check
    pub readyz-add_readyz :
        (g g' : GenericServer) (c : Check)
        → add_readyz_checks g c ≡ ok g'
        → (readyz g' ≡ readyz g ++ c ∷ []) × (livez g' ≡ livez g)
    pub livez-add_livez :
        (g g' : GenericServer) (delay : Duration) (c : Check)
        → add_livez_checks g delay c ≡ ok g'
        → (readyz g' ≡ readyz g) × (livez g' ≡ livez g ++ c ∷ [])
    pub both-add_health :
        (g g' : GenericServer) (c : Check)
        → add_health_checks g c ≡ ok g'
        → (readyz g' ≡ readyz g ++ c ∷ []) × (livez g' ≡ livez g ++ c ∷ [])

none_left :
    (informers : Dict GoString Bool)
    → (verdict (keys (keep (λ (_, started). not started) informers)) ≡ ok tt)
      ↔ All (λ (_, started). started ≡ true) informers
unfolding verdict
none_left [] = (λ h. tt, λ h. refl)
none_left ((name, true) ∷ informers) =
    (λ h. (refl, (none_left informers).0 h), λ h. (none_left informers).1 h.1)
none_left ((name, false) ∷ informers) = (λ h. absurd (cc), λ h. absurd (cc))

-- The check of the informers passes if all of them have started.
all_started :
    (informers : Dict GoString Bool)
    → (check_informers informers ≡ ok tt) ↔ All (λ (_, started). started ≡ true) informers
all_started informers = rw (check_informers_lem informers) (none_left informers)

storage_ready_iff : (s : Server) → (probe_metric_storage_ready s ≡ ok tt) ↔ (ready s.storage ≡ true)
unfolding probe_metric_storage_ready
storage_ready_iff s = (λ h. ground arith, λ h. ground arith)

synced_iff :
    (nodes_synced pods_synced : Bool)
    → (probe_metric_cache_has_synced nodes_synced pods_synced ≡ ok tt)
      ↔ ((nodes_synced ≡ true) × (pods_synced ≡ true))
unfolding probe_metric_cache_has_synced
synced_iff nodes_synced pods_synced = (λ h. ground arith, λ h. ground arith)

module _ {E A C F Q : Type 0} (fl : Floats F) (qs : Quantities Q) (now : ℕ → Time)
    (libraries : Libraries E A C F Q fl) (endpoints : Endpoints fl qs now libraries) where
  open libraries use {GenericServer, add_readyz_checks, add_livez_checks, add_health_checks}
  open endpoints use {readyz, livez, readyz-add_readyz, livez-add_livez, both-add_health}

  abbrev storage_check : Check
  storage_check = metric_storage_ready (str "metric-storage-ready")

  abbrev cache_check : Check
  cache_check = metric_cache_has_synced (str "metric-informer-sync")

  abbrev timely_check : Check
  timely_check = metric_collection_timely (str "metric-collection-timely")

  abbrev informer_check : Check
  informer_check = metadata_informer_sync (str "metadata-informer-sync")

  registered_checks :
      (g g' : GenericServer)
      → register_probes fl qs now libraries g ≡ ok g'
      → readyz g ≡ []
      → livez g ≡ []
      → (readyz g' ≡ storage_check ∷ cache_check ∷ informer_check ∷ [])
        × (livez g' ≡ timely_check ∷ informer_check ∷ [])
  unfolding register_probes
  registered_checks g g' h no_readyz no_livez =
      bind_ok (add_readyz_checks g storage_check) _ g' h λ g1 e1 h1.
        bind_ok (add_readyz_checks g1 cache_check) _ g' h1 λ g2 e2 h2.
          bind_ok (add_livez_checks g2 (pos 0) timely_check) _ g' h2 λ g3 e3 h3.
            let (r1, l1) = readyz-add_readyz g g1 storage_check e1 in
            let (r2, l2) = readyz-add_readyz g1 g2 cache_check e2 in
            let (r3, l3) = livez-add_livez g2 g3 (pos 0) timely_check e3 in
            let (r4, l4) = both-add_health g3 g' informer_check h3 in
            (rw (r4, r3, r2, r1, no_readyz) refl, rw (l4, l3, l2, l1, no_livez) refl)

  -- With the checks that are registered on a server without any, the endpoint readyz passes exactly when the
  -- storage is ready, both caches are synchronised and all informers of metadata have started; livez
  -- passes exactly when the collection is timely and these informers have started.
  pub register_probes_iff :
      (g g' : GenericServer) (s : Server) (t : Time) (nodes_synced pods_synced : Bool)
      (informers : Dict GoString Bool)
      → register_probes fl qs now libraries g ≡ ok g'
      → readyz g ≡ []
      → livez g ≡ []
      → let passes = λ (c : Check). run_check fl s t nodes_synced pods_synced informers c ≡ ok tt in
        (All passes (readyz g') ↔ (
          (ready s.storage ≡ true)
          × (nodes_synced ≡ true)
          × (pods_synced ≡ true)
          × All (λ (_, started). started ≡ true) informers))
        × (All passes (livez g') ↔ (
            (probe_metric_collection_timely fl s t ≡ ok tt)
            × All (λ (_, started). started ≡ true) informers))
  unfolding run_check
  register_probes_iff g g' s t nodes_synced pods_synced informers h no_readyz no_livez =
      let (r, l) = registered_checks g g' h no_readyz no_livez in
      let stored = storage_ready_iff s in
      let synced = synced_iff nodes_synced pods_synced in
      let started = all_started informers in
      rw (r, l)
        (
          (
            λ (a, (b, (c, _))). let (n, p) = synced.0 b in (stored.0 a, n, p, started.0 c),
            λ (a, b, c, d). (stored.1 a, (synced.1 (b, c), (started.1 d, tt))),
          ),
          (λ (a, (b, _)). (a, started.0 b), λ (a, b). (a, (started.1 b, tt))),
        )
