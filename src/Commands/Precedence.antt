-- ===== src/Commands/Precedence.antt =====
-- What FlagPrecedence does to the configuration that was loaded.
use frp_provisioner.Prelude.{String, false, is_some, List, [], ◌≡◌}
use frp_provisioner.Flags.{
  Readers, declared, split_for, Values, view, outcome, assign_all, set_all, set_all-Simulates,
}
use frp_provisioner.Config.{Configuration}
use frp_provisioner.Commands.Flags.{new_manager_flags}
use frp_provisioner.Commands.Manager.{Bound, add_flags, precedence_flags}
use frp_provisioner.Commands.Bindings.{bindings, Fits}

-- The configuration as the flags of FlagPrecedence see it.
abbrev pub at_flags : Configuration → Bound
at_flags c = record { help = false; flags = new_manager_flags; cfg = c }

module _ (P : Readers) where
  -- The values of the flags of a configuration, by their names.
  abbrev pub values : Configuration → Values
  values c = view (add_flags P c) (at_flags c)

  -- What the arguments give to the flags of FlagPrecedence, in order.
  abbrev pub given : List String → Configuration → List (String × String)
  given args c = (split_for P (precedence_flags P c) args).given

  -- Setting the flags of the manager one after the other, through the pointers to the fields of its
  -- configuration, is the same as giving values to their names, one after the other: each text
  -- changes the value of its own flag and no other, an unknown name or a text that does not read is the
  -- same error, and whether there is a sampling policy does not change.
  pub set_all-refines :
      (c : Configuration) (texts : List (String × String)) (b : Bound)
      → is_some b.cfg.log.sampling ≡ is_some c.log.sampling
      → (outcome (view (precedence_flags P c)) (set_all P (precedence_flags P c) [] texts b)
          ≡ assign_all P (declared (precedence_flags P c)) [] texts (view (precedence_flags P c) b))
        × (is_some (set_all P (precedence_flags P c) [] texts b).1.cfg.log.sampling
            ≡ is_some c.log.sampling)
  set_all-refines c texts b h =
      set_all-Simulates P (Fits (is_some c.log.sampling)) (precedence_flags P c) (bindings P c)
        texts [] b h
