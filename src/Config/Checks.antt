-- ===== src/Config/Checks.antt =====
-- What the configuration's defaults fill in, and what its checks accept.
use mathlib.Core.Path.{subst}
use frp_provisioner.Prelude.{
  String, Bool, false, List, [], Option, none, some, ◌≡◌, ◌≢◌, ◌↔◌, refl, is_empty, ap, ◌∙◌, sym,
  if◌then◌else◌,
}
use frp_provisioner.Go.{
  GoError, Result, ok, err, panic, note_if, note_if-none, join-some, differs, is_empty-false,
}
use frp_provisioner.Kube.{Pod, Machinery, IsLawful, text_twice, int_twice, text_filled, int_filled}
use frp_provisioner.Config.Logging.{
  LogOptions, SamplingConfig, default_sampling, set_log_defaults, validate_log,
}
use frp_provisioner.Config.Manager.{
  ManagerOptions, set_manager_defaults, required_errors, overwrite, validate_manager,
}
use frp_provisioner.Config.Whole.{
  AgentConfiguration, set_agent_defaults, validate_agent, Configuration, set_defaults, validate,
  join_named, join_manager,
}

sampling_twice :
    (s : Option SamplingConfig) → default_sampling (some (default_sampling s)) ≡ default_sampling s
unfolding default_sampling
sampling_twice none = refl
sampling_twice (some s) = refl

log_twice : (o : LogOptions) → set_log_defaults (set_log_defaults o) ≡ set_log_defaults o
unfolding set_log_defaults
log_twice o = simp sampling_twice

passes :
    (bad : Bool) (message : String) (errs : Option GoError)
    → bad ≡ false
    → note_if bad message errs ≡ errs
unfolding note_if
passes bad message errs h = rw (h, if◌then◌else◌)

module _ (L : Machinery) (lawful : IsLawful L) (temp_path : List String → String) where
  manager_twice :
      (o : ManagerOptions)
      → set_manager_defaults L temp_path (set_manager_defaults L temp_path o)
        ≡ set_manager_defaults L temp_path o
  unfolding set_manager_defaults
  manager_twice o = simp (text_twice L lawful, int_twice L lawful)

  -- Each field that Validate requires has a default that is not empty.
  required : (o : ManagerOptions) → required_errors L (set_manager_defaults L temp_path o) ≡ none
  unfolding required_errors set_manager_defaults
  required o =
      passes _ "PodTemplate is required" _ (text_filled L lawful o.pod_template _ refl)
      ∙ passes _ "gracefulShutdownTimeout is required" _
          (int_filled L lawful o.graceful_shutdown_timeout _ refl)
      ∙ passes _ "metricsBindAddress is required" _
          (text_filled L lawful o.metrics_bind_address _ refl)
      ∙ passes _ "retryPeriod is required" _ (int_filled L lawful o.retry_period _ refl)
      ∙ passes _ "renewDeadline is required" _ (int_filled L lawful o.renew_deadline _ refl)
      ∙ passes _ "leaderElectionResourceLock is required" _
          (text_filled L lawful o.leader_election_resource_lock _ refl)
      ∙ passes _ "leaseDuration is required" _ (int_filled L lawful o.lease_duration _ refl)
      ∙ passes _ "leaderElectionID is required" none
          (text_filled L lawful o.leader_election_id _ refl)

-- The defaults are idempotent, and with them the checks of the log options and all checks of the
-- manager's options but that of the pod template pass.
pub set_defaults-Complete :
    (L : Machinery)
    → IsLawful L
    → (temp_path : List String → String) (c : Configuration)
    → (set_defaults L temp_path (set_defaults L temp_path c) ≡ set_defaults L temp_path c)
      × (validate_log (set_defaults L temp_path c).log ≡ none)
      × (required_errors L (set_defaults L temp_path c).manager ≡ none)
unfolding set_defaults validate_log set_log_defaults note_if
set_defaults-Complete L lawful temp_path c =
    let a = log_twice c.log in
    let b = manager_twice L lawful temp_path c.manager in
    ((λ i. record { log = a i; manager = b i }), refl, required L lawful temp_path c.manager)

-- Log options that are written somewhere, in some encoding.
abbrev pub IsLogged : LogOptions → Type 0
IsLogged o = (o.encoding ≢ "") × (o.output_paths ≢ []) × (o.error_output_paths ≢ [])

validate_log-none : (o : LogOptions) → (validate_log o ≡ none) ↔ IsLogged o
unfolding validate_log
validate_log-none o =
    let (f, g) =
      note_if-none _ "log.errorOutputPaths is required" _ (is_empty-false o.error_output_paths) (
        note_if-none _ "log.outputPaths is required" _ (is_empty-false o.output_paths) (
          note_if-none _ "log.encoding is required" none (differs o.encoding "")
            ((λ p. p), λ p. p))) in
    ((λ h. let (((_, a), b), c) = f h in (a, b, c)), λ (a, b, c). g (((refl, a), b), c))

named-none :
    (part : String) (errs e : Option GoError)
    → (join_named part errs e ≡ none) ↔ ((errs ≡ none) × (e ≡ none))
unfolding join_named
named-none part errs none = ((λ h. (h, refl)), λ (h, _). h)
named-none part errs (some e) = ((λ h. absurd (join-some errs _ h)), λ (_, h). absurd (cc))

-- What a success carries.
value : {A : Type 0} → A → Result A → A
value d (ok a) = a
value d _ = d

-- The template is that of a pod with a container.
abbrev pub IsTemplate : Machinery → String → Type 0
IsTemplate L template = (p : Pod) × (L.unmarshal_pod template ≡ ok p) × (p.containers ≢ [])

module _ (L : Machinery) where
  accepted :
      (errs : Option GoError) (template : String) (before : Option GoError) (r : Result Pod)
      → (join_manager L errs (overwrite L template before r) ≡ ok none)
        ↔ ((errs ≡ none) × ((p : Pod) × (r ≡ ok p) × (p.containers ≢ [])))
  unfolding join_manager overwrite value
  accepted errs template before (ok pod) =
      let no_container : String = "podTemplate does not specify any container" in
      let (f, g) =
        named-none "manager" errs (note_if (is_empty pod.containers) no_container none) in
      let (k, m) =
        note_if-none _ no_container none (is_empty-false pod.containers) ((λ p. p), λ p. p) in
      (
        (λ h. let (fine, found) = f (ap (value none) h) in (fine, (pod, refl, (k found).1))),
        λ (fine, (p, e, some_container)). ap ok (
            g (
              fine,
              m (
                refl,
                subst (λ (q : Pod). q.containers ≢ []) (sym (ap (value pod) e)) some_container,
              ),
            )),
      )
  accepted errs template before (err e) =
      ((λ h. absurd (join-some errs _ (ap (value none) h))), λ (_, (p, e, _)). absurd (cc))
  accepted errs template before (panic m) = ((λ h. absurd (cc)), λ (_, (p, e, _)). absurd (cc))

-- The configuration is accepted just if the log options have an encoding and paths, and the pod
-- template is that of a pod with a container: no other option of the manager is looked at in the end.
pub validate-eq-ok :
    (L : Machinery) (c : Configuration)
    → (validate L c ≡ ok none) ↔ (IsLogged c.log × IsTemplate L c.manager.pod_template)
unfolding validate validate_manager
validate-eq-ok L c =
    let (f, g) =
      accepted L (join_named "log" none (validate_log c.log)) c.manager.pod_template
        (required_errors L c.manager) (L.unmarshal_pod c.manager.pod_template) in
    let (k, m) = named-none "log" none (validate_log c.log) in
    let (x, y) = validate_log-none c.log in
    (
      (λ h. let (errs, template) = f h in (x (k errs).1, template)),
      λ (logged, template). g (m (refl, y logged), template),
    )

set_log_defaults-IsLogged : (o : LogOptions) → IsLogged (set_log_defaults o)
unfolding set_log_defaults
set_log_defaults-IsLogged o = ((differs "console" "").0 refl, (λ h. absurd (cc)), λ h. absurd (cc))

-- The configuration of the agent is accepted just if its log options have an encoding and paths, and
-- so is every configuration after its defaults were set.
pub validate_agent-none :
    (c : AgentConfiguration)
    → ((validate_agent c ≡ none) ↔ IsLogged c.log) × (validate_agent (set_agent_defaults c) ≡ none)
unfolding validate_agent set_agent_defaults
validate_agent-none c =
    let (f, g) = named-none "log" none (validate_log c.log) in
    let (k, m) = validate_log-none c.log in
    let (_, n) = named-none "log" none (validate_log (set_log_defaults c.log)) in
    let (_, q) = validate_log-none (set_log_defaults c.log) in
    (
      ((λ h. k (f h).1), λ logged. g (refl, m logged)),
      n (refl, q (set_log_defaults-IsLogged c.log)),
    )
