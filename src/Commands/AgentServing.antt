-- ===== src/Commands/AgentServing.antt =====
-- What the command of the agent went through before it returned.
use frp_provisioner.Prelude.{
  String, List, [], ◌∷◌, Option, none, some, ◌==◌, ◌≡◌, ◌≢◌, refl, ap, ◌∙◌, inl, inr, arith,
  Bool-cases, if◌then◌else◌,
}
use frp_provisioner.Go.{GoError, Result, ok, lift, failing-eq-ok, ◌>>=◌, >>=-eq-ok, differs}
use frp_provisioner.Config.{AgentConfiguration, validate_agent, validate_agent-none, IsLogged}
use frp_provisioner.Logger.{new_logger}
use frp_provisioner.Commands.Flags.{
  AgentPointers, cannot_load, load_agent_config_file, validate_agent_flags,
}
use frp_provisioner.Commands.Agent.{
  AgentBound, AgentParts, agent_command_flags, agent_flag_precedence, agent_before,
  with_agent_logger, agent_check, agent_configure, agent_check_rest, agent_run_e,
}
use frp_provisioner.Commands.Serving.{Shows, shown-Shows, lifted-eq-ok}

module _ {S : Type 0} (W : AgentParts S) where
  abbrev pub agent_bound : List String → AgentBound
  agent_bound args =
      let b = agent_before W in
      (W.flag_library.parse AgentBound (agent_command_flags W.flag_library.readers b.cfg) args b).1

  abbrev pub agent_rests : List String → Result (List String)
  agent_rests args =
      let b = agent_before W in
      (W.flag_library.parse AgentBound (agent_command_flags W.flag_library.readers b.cfg) args b).0

  -- From this state the logger of the configuration is made and becomes the global one.
  abbrev pub Logs : AgentConfiguration → S → S → Type 0
  Logs cfg s t =
      (logger : W.zap.Logger) × (u : S) × (new_logger W.zap cfg.log s ≡ (ok logger, u))
      × (W.zap.replace_globals logger u ≡ t)

  check-Logs :
      (cfg : AgentConfiguration) (errs : Option GoError) (s t : S)
      → agent_check W cfg errs s ≡ (ok tt, t)
      → (errs ≡ none) × Logs cfg s t
  unfolding agent_check
  check-Logs cfg none s t h =
      let (logger, u, p, q) =
        failing-eq-ok (new_logger W.zap cfg.log) _ (with_agent_logger W cfg) s h in
      (refl, (logger, u, p, ap (λ x. x.1) q))
  check-Logs cfg (some e) s t h = absurd (cc)

  validated :
      (b : AgentBound) (s u : S)
      → validate_agent_flags W.files b.flags s ≡ (ok tt, u)
      → (b.flags.config_file ≢ "") × (W.files.stat b.flags.config_file s ≡ (ok tt, u))
  unfolding validate_agent_flags
  validated b s u h = elim (Bool-cases (b.flags.config_file == "")) [
    | inl missing ↦ absurd (ground (arith, missing))
    | inr named ↦ ((differs b.flags.config_file "").0 named, (rw (named, if◌then◌else◌) at h))
  ]

  abbrev pub AgentConfigures : List String → AgentBound → S → S → Type 0
  AgentConfigures args b s t =
      (b.flags.config_file ≢ "")
      × ((u : S) × (v : S) × (loaded : AgentPointers) × (cfg : AgentConfiguration) × (W.files.stat
              b.flags.config_file s
            ≡ (ok tt, u))
          × (load_agent_config_file W.files b.flags.config_file b.cfg u ≡ (ok loaded, v))
          × (agent_flag_precedence W.flag_library args loaded ≡ ok cfg)
          × IsLogged cfg.log
          × Logs cfg v t)

  configure-AgentConfigures :
      (args : List String) (b : AgentBound) (s t : S)
      → agent_configure W args b s ≡ (ok tt, t)
      → AgentConfigures args b s t
  unfolding agent_configure cannot_load
  configure-AgentConfigures args b s t h =
      let (_, u, p, q) = >>=-eq-ok (validate_agent_flags W.files b.flags) _ s h in
      let (named, there) = validated b s u p in
      let (loaded, v, x, y) =
        failing-eq-ok (load_agent_config_file W.files b.flags.config_file b.cfg) _
          (λ loaded. lift (agent_flag_precedence W.flag_library args loaded) >>= λ cfg.
            agent_check W cfg (validate_agent cfg))
          u q in
      let (cfg, k, z) =
        lifted-eq-ok (agent_flag_precedence W.flag_library args loaded)
          (λ cfg. agent_check W cfg (validate_agent cfg)) v y in
      let (fine, logs) = check-Logs cfg (validate_agent cfg) v t z in
      (named, (u, v, loaded, cfg, there, x, k, (validate_agent-none cfg).0.0 fine, logs))

  -- What the command did with flags that have these values.
  abbrev pub AgentCommands : List String → AgentBound → S → S → Type 0
  AgentCommands args b s t =
      Shows W.shell.help W.shell.print_version b.help b.flags.show_version
        (AgentConfigures args b s t) s t

  check_rest-AgentCommands :
      (args : List String) (b : AgentBound) (rest : List String) (s t : S)
      → agent_check_rest W args b rest s ≡ (ok tt, t)
      → (rest ≡ []) × AgentCommands args b s t
  unfolding agent_check_rest
  check_rest-AgentCommands args b [] s t h = (
    refl,
    shown-Shows W.shell.help W.shell.print_version b.help b.flags.show_version
        (agent_configure W args b) s t (AgentConfigures args b s t) h
        (configure-AgentConfigures args b s t),
  )
  check_rest-AgentCommands args b (a ∷ _) s t h = absurd (cc)

  -- If the command of the agent returns without an error then the arguments are flags only, and it showed
  -- its help and did nothing else, as its flag says; or that flag is not set, and it printed its version
  -- and did nothing else, as its flag says; or else neither flag is set and the configuration file is named
  -- and is there, it was loaded over the configuration that the arguments were parsed into, the arguments
  -- took precedence over it, the result has log options with an encoding and paths, and its logger was
  -- made and became the global one, which was the last thing that was done.
  pub agent_run_e-AgentCommands :
      (args : List String) (s t : S)
      → agent_run_e W args s ≡ (ok tt, t)
      → (agent_rests args ≡ ok []) × AgentCommands args (agent_bound args) s t
  unfolding agent_run_e
  agent_run_e-AgentCommands args s t h =
      let b = agent_before W in
      let (r, c) =
        W.flag_library.parse AgentBound (agent_command_flags W.flag_library.readers b.cfg) args b in
      let (rest, p, q) = lifted-eq-ok r (agent_check_rest W args c) s h in
      let (none_left, done) = check_rest-AgentCommands args c rest s t q in
      (p ∙ ap ok none_left, done)
