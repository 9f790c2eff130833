-- ===== src/Startup/Port.antt =====
-- With which options a manager is created, and what is set up in it.
use frp_provisioner.Prelude.{
  String, [], ◌∷◌, map, ◌==◌, ◌≡◌, ◌≢◌, ◌∙◌, ap, sym, refl, inl, inr, Bool-cases, eq_iff,
  if◌then◌else◌, arith,
}
use mathlib.Core.Path.{subst}
use frp_provisioner.Prelude.Int.{ℤ}
use frp_provisioner.Go.{
  GoError, Result, ok, err, differs, failing-eq-ok, step-eq-ok, >>=-eq-ok, lift, pure,
}
use frp_provisioner.Config.{Configuration, ManagerOptions}
use frp_provisioner.Startup.Defs.{
  Options, Runtime, ManagerServer, manager_options, owner_index_func, webhook_port,
  register_field_indexes, build, set_up, set_up_parts, with_address, new_manager_server,
}

-- The options of a manager whose webhooks have this host and port, and otherwise those of the
-- configuration.
pub record IsFor (host : String) (port : ℤ) (o : ManagerOptions) (x : Options) : Type 0 where
  pub webhook_host : x.webhook_server.host ≡ host
  pub webhook_port : x.webhook_server.port ≡ port
  pub webhook_cert_dir : x.webhook_server.cert_dir ≡ o.webhook_cert_dir
  pub webhook_cert_name : x.webhook_server.cert_name ≡ o.webhook_cert_name
  pub webhook_key_name : x.webhook_server.key_name ≡ o.webhook_key_name
  pub webhook_client_ca_name : x.webhook_server.client_ca_name ≡ o.webhook_client_ca_name
  pub metrics_cert_dir : x.metrics.cert_dir ≡ o.metrics_cert_dir
  pub metrics_cert_name : x.metrics.cert_name ≡ o.metrics_cert_name
  pub metrics_key_name : x.metrics.key_name ≡ o.metrics_key_name
  pub metrics_secure_serving : x.metrics.secure_serving ≡ o.metrics_secure_serving
  pub metrics_bind_address : x.metrics.bind_address ≡ o.metrics_bind_address
  pub leader_election : x.leader_election ≡ o.leader_election
  pub leader_election_resource_lock :
      x.leader_election_resource_lock ≡ o.leader_election_resource_lock
  pub leader_election_namespace : x.leader_election_namespace ≡ o.leader_election_namespace
  pub leader_election_id : x.leader_election_id ≡ o.leader_election_id
  pub leader_election_release_on_cancel :
      x.leader_election_release_on_cancel ≡ o.leader_election_release_on_cancel
  pub lease_duration : x.lease_duration ≡ o.lease_duration
  pub renew_deadline : x.renew_deadline ≡ o.renew_deadline
  pub retry_period : x.retry_period ≡ o.retry_period
  pub health_probe_bind_address : x.health_probe_bind_address ≡ o.health_probe_bind_address
  pub pprof_bind_address : x.pprof_bind_address ≡ o.pprof_bind_address
  pub graceful_shutdown_timeout : x.graceful_shutdown_timeout ≡ o.graceful_shutdown_timeout

manager_options-IsFor :
    (host : String) (port : ℤ) (o : ManagerOptions)
    → IsFor host port o (manager_options host port o)
manager_options-IsFor host port o = record {
  webhook_host = refl;
  webhook_port = refl;
  webhook_cert_dir = refl;
  webhook_cert_name = refl;
  webhook_key_name = refl;
  webhook_client_ca_name = refl;
  metrics_cert_dir = refl;
  metrics_cert_name = refl;
  metrics_key_name = refl;
  metrics_secure_serving = refl;
  metrics_bind_address = refl;
  leader_election = refl;
  leader_election_resource_lock = refl;
  leader_election_namespace = refl;
  leader_election_id = refl;
  leader_election_release_on_cancel = refl;
  lease_duration = refl;
  renew_deadline = refl;
  retry_period = refl;
  health_probe_bind_address = refl;
  pprof_bind_address = refl;
  graceful_shutdown_timeout = refl;
}

value : {A : Type 0} → A → Result A → A
value d (ok a) = a
value d _ = d

module _ {S : Type 0} (R : Runtime S) (e : GoError) (empty : R.atoi "" ≡ err e) where
  port_taken :
      (port : String) (p : ℤ) (s t : S)
      → webhook_port R port s ≡ (ok p, t)
      → (port ≢ "") × (R.default_port ≡ p) × (s ≡ t)
  unfolding webhook_port value
  port_taken port p s t h = elim (Bool-cases (port == "")) [
    | inl none_given ↦
        let same = (eq_iff port "").0 none_given in
        let failed : R.atoi port ≡ err e = ap R.atoi same ∙ empty in
        absurd (ground (arith, none_given, failed))
    | inr given ↦
        let taken : pure R.default_port s ≡ (ok p, t) = (rw (given, if◌then◌else◌) at h) in
        ((differs port "").0 given, ap (λ x. value p x.0) taken, ap (λ x. x.1) taken)
  ]

module _ {S : Type 0} (R : Runtime S) where
  -- The indexes, the controllers, the webhook and the checks are set up in the manager, in this order.
  abbrev pub SetsUp : Configuration → R.Manager → S → S → Type 0
  SetsUp cfg mgr s t =
      (a : S) × (b : S) × (c : S) × (d : S) × (e : S) × (f : S) × (R.index_pods mgr "ownerRefUID"
          (map (λ ref. ref.uid)) s
        ≡ (ok tt, a))
      × (R.index_frp_servers mgr "status.phase"
            (λ srv. if srv.status.phase == "" then [] else srv.status.phase ∷ []) a
          ≡ (ok tt, b))
      × (R.setup_service_reconciler mgr cfg.manager b ≡ (ok tt, c))
      × (R.setup_frp_server_reconciler mgr c ≡ (ok tt, d))
      × (R.setup_frp_server_validator mgr d ≡ (ok tt, e))
      × (R.add_healthz_check mgr e ≡ (ok tt, f))
      × (R.add_readyz_check mgr f ≡ (ok tt, t))

  set_up_parts-SetsUp :
      (cfg : Configuration) (mgr : R.Manager) (s t : S)
      → set_up_parts R cfg mgr s ≡ (ok tt, t)
      → SetsUp cfg mgr s t
  unfolding set_up_parts register_field_indexes
  set_up_parts-SetsUp cfg mgr s t h =
      let (_, b, p, h1) = step-eq-ok (register_field_indexes R mgr) _ _ s h in
      let (_, a, p1, p2) = >>=-eq-ok (R.index_pods mgr "ownerRefUID" owner_index_func) _ s p in
      let (_, c, q1, h2) = step-eq-ok (R.setup_service_reconciler mgr cfg.manager) _ _ b h1 in
      let (_, d, q2, h3) = step-eq-ok (R.setup_frp_server_reconciler mgr) _ _ c h2 in
      let (_, e, q3, h4) = step-eq-ok (R.setup_frp_server_validator mgr) _ _ d h3 in
      let (_, f, q4, h5) = step-eq-ok (R.add_healthz_check mgr) _ _ e h4 in
      let (_, g, q5, h6) = failing-eq-ok (R.add_readyz_check mgr) _ pure f h5 in
      (a, b, c, d, e, f, p1, p2, q1, q2, q3, q4, q5 ∙ h6)

  -- The server that is returned holds the manager that was set up, and the configuration.
  set_up-SetsUp :
      (cfg : Configuration) (mgr : R.Manager) (server : ManagerServer R) (s t : S)
      → set_up R cfg mgr s ≡ (ok server, t)
      → (mgr ≡ server.mgr) × (cfg ≡ server.cfg) × SetsUp cfg mgr s t
  unfolding set_up value
  set_up-SetsUp cfg mgr server s t h =
      let (_, u, p, q) =
        >>=-eq-ok (set_up_parts R cfg mgr) (λ _. pure (record { mgr = mgr; cfg = cfg })) s h in
      (
        ap (λ x. (value server x.0).mgr) q,
        ap (λ x. (value server x.0).cfg) q,
        set_up_parts-SetsUp cfg mgr s t (p ∙ (λ i. (ok tt, (q i).1))),
      )

  -- From this state, a manager was created for the webhook address and the configuration and was set
  -- up, and it is the server's.
  abbrev pub Builds : Configuration → String → ℤ → ManagerServer R → S → S → Type 0
  Builds cfg host port server s t =
      (kube : R.KubeConfig) × (u : S) × (v : S) × (x : Options) × (R.get_config s ≡ (ok kube, u))
      × IsFor host port cfg.manager x
      × (R.new_manager kube x u ≡ (ok server.mgr, v))
      × (server.cfg ≡ cfg)
      × SetsUp cfg server.mgr v t

  build-Builds :
      (cfg : Configuration) (host : String) (port : ℤ) (server : ManagerServer R) (s t : S)
      → build R cfg host port s ≡ (ok server, t)
      → Builds cfg host port server s t
  unfolding build
  build-Builds cfg host port server s t h =
      let o = manager_options host port cfg.manager in
      let (kube, u, p, q) = failing-eq-ok R.get_config _ _ s h in
      let (mgr, v, p2, q2) = failing-eq-ok (R.new_manager kube o) _ (set_up R cfg) u q in
      let (same, kept, parts) = set_up-SetsUp cfg mgr server v t q2 in
      (
        kube,
        u,
        v,
        o,
        p,
        manager_options-IsFor host port cfg.manager,
        p2 ∙ (λ i. (ok (same i), v)),
        sym kept,
        subst (λ m. SetsUp cfg m v t) same parts,
      )

-- If NewManagerServer succeeds then the address of the webhooks splits into a host and a port that is
-- not empty, and the manager was created with this host, with the default port of the webhooks, and not
-- with the one that the address has, and with the options of the configuration, each in its place; then
-- in this order the index of pods by the uids of their owners and that of frp servers by their phase,
-- the two reconcilers, the webhook of frp servers and the two checks were set up in it; and the server
-- holds this manager and this configuration. It rests on Atoi of the empty text being an error.
pub new_manager_server-Builds :
    {S : Type 0} (R : Runtime S) (e : GoError)
    → R.atoi "" ≡ err e
    → (cfg : Configuration) (s t : S) (server : ManagerServer R)
    → new_manager_server R cfg s ≡ (ok server, t)
    → (host : String) × (port : String) × (R.split_host_port cfg.manager.webhook_bind_address
        ≡ ok (host, port))
      × (port ≢ "")
      × Builds R cfg host R.default_port server s t
unfolding new_manager_server with_address
new_manager_server-Builds R e empty cfg s t server h =
    let ((host, port), a, p, q) =
      failing-eq-ok (lift (R.split_host_port cfg.manager.webhook_bind_address)) _
        (with_address R cfg) s h in
    let (n, b, p2, q2) = >>=-eq-ok (webhook_port R port) (build R cfg host) a q in
    let (given, default, same) = port_taken R e empty port n a b p2 in
    let start : s ≡ b = ap (λ x. x.1) p ∙ same in
    let building : build R cfg host R.default_port s ≡ (ok server, t) =
      (λ i. build R cfg host (default i) (start i)) ∙ q2 in
    (host, port, ap (λ x. x.0) p, given, build-Builds R cfg host R.default_port server s t building)
