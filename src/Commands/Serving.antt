-- ===== src/Commands/Serving.antt =====
-- What a command went through before its server ran.
use frp_provisioner.Prelude.{
  String, Bool, true, false, List, [], ◌∷◌, Option, none, some, ◌==◌, ◌≡◌, ◌≢◌, ◌⊎◌, refl, sym, ap,
  ◌∙◌, inl, inr, arith, Bool-cases, if◌then◌else◌,
}
use frp_provisioner.Go.{
  GoError, Result, ok, err, panic, M, lift, ◌>>=◌, failing-eq-ok, >>=-eq-ok, differs,
}
use frp_provisioner.Config.{Configuration, validate, validate-eq-ok, IsLogged, IsTemplate}
use frp_provisioner.Logger.{background, new_context, new_logger}
use frp_provisioner.Startup.{ManagerServer, new_manager_server, start_server}
use frp_provisioner.Commands.Flags.{Pointers, cannot_load, load_config_file, validate_manager_flags}
use frp_provisioner.Commands.Manager.{Bound, command_flags, flag_precedence, before}
use frp_provisioner.Commands.Run.{
  Parts, with_logger, serve, checked, check, configure, show_or_configure, check_rest, run_e,
}

pub lifted-eq-ok :
    {S A B : Type 0} (r : Result A) (next : A → M S B) (s : S) {b : B} {t : S}
    → (lift r >>= next) s ≡ (ok b, t)
    → (a : A) × (r ≡ ok a) × (next a s ≡ (ok b, t))
lifted-eq-ok (ok a) next s h = (a, refl, h)
lifted-eq-ok (err e) next s h = absurd (cc)
lifted-eq-ok (panic m) next s h = absurd (cc)

module _ {S : Type 0} (show_help : M S (Unit {0})) (print_version : S → S) where
  -- The help was shown and nothing else was done, if its flag is set; or else the version was printed and
  -- nothing else was done, if its flag is set; or else the rest was done.
  abbrev pub Shows : (help version : Bool) → Type 0 → S → S → Type 0
  Shows help version Rest s t =
      ((help ≡ true) × (show_help s ≡ (ok tt, t)))
      ⊎ (((help ≡ false) × (version ≡ true) × (t ≡ print_version s))
          ⊎ ((help ≡ false) × (version ≡ false) × Rest))

  pub shown-Shows :
      (help version : Bool) (m : M S (Unit {0})) (s t : S) (Rest : Type 0)
      → (if help then show_help s else if version then (ok tt, print_version s) else m s)
        ≡ (ok tt, t)
      → (m s ≡ (ok tt, t) → Rest)
      → Shows help version Rest s t
  shown-Shows true version m s t Rest h rest = inl (refl, h)
  shown-Shows false true m s t Rest h rest = inr (inl (refl, refl, ap (λ x. x.1) (sym h)))
  shown-Shows false false m s t Rest h rest = inr (inr (refl, refl, rest h))

module _ {S : Type 0} (W : Parts S) where
  -- What the flags are bound to after the arguments are parsed.
  abbrev pub bound : List String → Bound
  bound args =
      let b = before W.machinery W.temp_path in
      (W.flag_library.parse Bound (command_flags W.flag_library.readers b.cfg) args b).1

  -- The arguments that are no flags, if the others could be parsed.
  abbrev pub rests : List String → Result (List String)
  rests args =
      let b = before W.machinery W.temp_path in
      (W.flag_library.parse Bound (command_flags W.flag_library.readers b.cfg) args b).0

  -- From this state, the server of the configuration is made and runs up to the other state, under the
  -- logger of the configuration, which is then the global one.
  abbrev pub Serves : Configuration → S → S → Type 0
  Serves cfg s t =
      (logger : W.zap.Logger) × (u : S) × (new_logger W.zap cfg.log s ≡ (ok logger, u))
      × ((server : ManagerServer (W.runtime (new_context W.zap (background W.zap.Logger) logger)))
          × (v : S) × (new_manager_server
                (W.runtime (new_context W.zap (background W.zap.Logger) logger)) cfg
                (W.shell.set_logger logger (W.zap.replace_globals logger u))
              ≡ (ok server, v))
          × (start_server (W.runtime (new_context W.zap (background W.zap.Logger) logger)) server v
              ≡ (ok tt, t)))

  serve-Serves : (cfg : Configuration) (s t : S) → serve W cfg s ≡ (ok tt, t) → Serves cfg s t
  unfolding serve
  serve-Serves cfg s t h =
      let (logger, u, p, q) = failing-eq-ok (new_logger W.zap cfg.log) _ (with_logger W cfg) s h in
      let R = W.runtime (new_context W.zap (background W.zap.Logger) logger) in
      let (server, v, x, y) =
        failing-eq-ok (new_manager_server R cfg) _ (start_server R)
          (W.shell.set_logger logger (W.zap.replace_globals logger u)) q in
      (logger, u, p, (server, v, x, y))

  checked-eq-ok :
      (cfg : Configuration) (errs : Option GoError) (s t : S)
      → checked W cfg errs s ≡ (ok tt, t)
      → (errs ≡ none) × Serves cfg s t
  unfolding checked
  checked-eq-ok cfg none s t h = (refl, serve-Serves cfg s t h)
  checked-eq-ok cfg (some e) s t h = absurd (cc)

  -- The configuration has passed its checks.
  abbrev pub IsAccepted : Configuration → Type 0
  IsAccepted cfg = IsLogged cfg.log × IsTemplate W.machinery cfg.manager.pod_template

  check-eq-ok :
      (cfg : Configuration) (s t : S) → check W cfg s ≡ (ok tt, t) → IsAccepted cfg × Serves cfg s t
  unfolding check
  check-eq-ok cfg s t h =
      let (errs, p, q) = lifted-eq-ok (validate W.machinery cfg) (checked W cfg) s h in
      let (fine, serves) = checked-eq-ok cfg errs s t q in
      ((validate-eq-ok W.machinery cfg).0 (p ∙ ap ok fine), serves)

  -- From this state, with flags that have these values, the file is there and is loaded, the arguments
  -- take precedence over it, and the server runs with a configuration that is accepted.
  abbrev pub Configures : List String → Bound → S → S → Type 0
  Configures args b s t =
      (b.flags.config_file ≢ "")
      × ((u : S) × (v : S) × (loaded : Pointers) × (cfg : Configuration) × (W.files.stat
              b.flags.config_file s
            ≡ (ok tt, u))
          × (load_config_file W.files b.flags.config_file b.cfg u ≡ (ok loaded, v))
          × (flag_precedence W.flag_library args loaded ≡ ok cfg)
          × IsAccepted cfg
          × Serves cfg v t)

  validated :
      (b : Bound) (s u : S)
      → validate_manager_flags W.files b.flags s ≡ (ok tt, u)
      → (b.flags.config_file ≢ "") × (W.files.stat b.flags.config_file s ≡ (ok tt, u))
  unfolding validate_manager_flags
  validated b s u h = elim (Bool-cases (b.flags.config_file == "")) [
    | inl missing ↦ absurd (ground (arith, missing))
    | inr named ↦ ((differs b.flags.config_file "").0 named, (rw (named, if◌then◌else◌) at h))
  ]

  configure-eq-ok :
      (args : List String) (b : Bound) (s t : S)
      → configure W args b s ≡ (ok tt, t)
      → Configures args b s t
  unfolding configure cannot_load
  configure-eq-ok args b s t h =
      let (_, u, p, q) = >>=-eq-ok (validate_manager_flags W.files b.flags) _ s h in
      let (named, there) = validated b s u p in
      let (loaded, v, x, y) =
        failing-eq-ok (load_config_file W.files b.flags.config_file b.cfg) _
          (λ loaded. lift (flag_precedence W.flag_library args loaded) >>= check W) u q in
      let (cfg, k, z) = lifted-eq-ok (flag_precedence W.flag_library args loaded) (check W) v y in
      let (accepted, serves) = check-eq-ok cfg v t z in
      (named, (u, v, loaded, cfg, there, x, k, accepted, serves))

  -- What the command did with flags that have these values.
  abbrev pub Commands : List String → Bound → S → S → Type 0
  Commands args b s t =
      Shows W.shell.help W.shell.print_version b.help b.flags.show_version (Configures args b s t) s
        t

  show_or_configure-Commands :
      (args : List String) (b : Bound) (s t : S)
      → show_or_configure W args b s ≡ (ok tt, t)
      → Commands args b s t
  unfolding show_or_configure
  show_or_configure-Commands args b s t h =
      shown-Shows W.shell.help W.shell.print_version b.help b.flags.show_version
        (configure W args b) s t (Configures args b s t) h (configure-eq-ok args b s t)

  check_rest-Commands :
      (args : List String) (b : Bound) (rest : List String) (s t : S)
      → check_rest W args b rest s ≡ (ok tt, t)
      → (rest ≡ []) × Commands args b s t
  unfolding check_rest
  check_rest-Commands args b [] s t h = (refl, show_or_configure-Commands args b s t h)
  check_rest-Commands args b (a ∷ _) s t h = absurd (cc)

  -- If the command of the manager returns without an error then the arguments are flags only, and it
  -- showed its help and did nothing else, as its flag says; or that flag is not set, and it printed its
  -- version and did nothing else, as its flag says; or else neither flag is set and all of this happened,
  -- in this order: the configuration file is named and is there, it was loaded over the configuration
  -- that the arguments were parsed into, the arguments took precedence over it, the result has log
  -- options with an encoding and paths and the template of a pod with a container, its logger was made
  -- and became the global one, and the server of this very configuration was made and returned from its
  -- run.
  pub run_e-Commands :
      (args : List String) (s t : S)
      → run_e W args s ≡ (ok tt, t)
      → (rests args ≡ ok []) × Commands args (bound args) s t
  unfolding run_e
  run_e-Commands args s t h =
      let b = before W.machinery W.temp_path in
      let (r, c) = W.flag_library.parse Bound (command_flags W.flag_library.readers b.cfg) args b in
      let (rest, p, q) = lifted-eq-ok r (check_rest W args c) s h in
      let (none_left, done) = check_rest-Commands args c rest s t q in (p ∙ ap ok none_left, done)
