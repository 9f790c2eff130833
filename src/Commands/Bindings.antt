-- ===== src/Commands/Bindings.antt =====
-- Each flag that FlagPrecedence registers is bound to a field of its own.
use frp_provisioner.Prelude.{
  String, Bool, List, true, false, is_some, All, Option, none, some, ◌≡◌, refl,
}
use frp_provisioner.Go.{Result, ok, err, panic, lift, ◌>>=◌}
use frp_provisioner.Flags.{Flag, Readers, RespectsAt, SetsAt, put, view, level_value}
use frp_provisioner.Config.{Configuration, SamplingConfig, set_level}
use frp_provisioner.Commands.Manager.{Bound, precedence_flags}

-- The sampling policy is there just if it was when the flags were registered.
abbrev pub Fits : Bool → Bound → Type 0
Fits there b = is_some b.cfg.log.sampling ≡ there

-- One flag, and those after it.
infixr 3 ◌&◌
◌&◌ : {A B : Type 0} → A → B → A × B
a & b = (a, b)

abbrev pub sampled : Option SamplingConfig → Configuration → Configuration
sampled x c = record c { log = record c.log { sampling = x } }

abbrev pub bound_to : Option SamplingConfig → Bound → Bound
bound_to x s = record s { cfg = sampled x s.cfg }

abbrev with_level : String → Bound → Bound
with_level l s = record s { cfg = record s.cfg { log = record s.cfg.log { level = l } } }

module _ (P : Readers) (K : Bound → Type 0) (fs : List (Flag Bound)) (n : String) (s : Bound) where
  level_answers :
      ((l : String)
        → (view fs (with_level l s) ≡ put n (level_value l) (view fs s)) × K (with_level l s))
      → (r : Result String)
      → SetsAt P K fs n s
          (let (a, o) = (lift r >>= λ level o. (ok tt, record o { level = level })) s.cfg.log in
            (a, record s { cfg = record s.cfg { log = o } }))
          r
  level_answers h (ok l) = (with_level l s, refl, (h l).0, (h l).1)
  level_answers h (err e) = refl
  level_answers h (panic m) = refl

  level_sets :
      ((l : String)
        → (view fs (with_level l s) ≡ put n (level_value l) (view fs s)) × K (with_level l s))
      → (t : String)
      → SetsAt P K fs n s
          (let (a, o) = set_level P t s.cfg.log in (a, record s { cfg = record s.cfg { log = o } }))
          (P.parse_level t)
  unfolding set_level
  level_sets h t = level_answers h (P.parse_level t)

module _ (P : Readers) where
  without_sampling :
      (c : Configuration) (s : Bound)
      → All
          (RespectsAt P (Fits false) (precedence_flags P (sampled none c)) (bound_to none s))
          (precedence_flags P (sampled none c))
  unfolding precedence_flags
  without_sampling c s =
      (λ v. (refl, refl))
      & (λ v. (refl, refl))
      & level_sets P (Fits false) (precedence_flags P (sampled none c)) "log.level"
          (bound_to none s) (λ l. (refl, refl))
      & (λ v. (refl, refl))
      & (λ v. (refl, refl))
      & (λ v. (refl, refl))
      & (λ v. (refl, refl))
      & (λ v. (refl, refl))
      & (λ v. (refl, refl))
      & (λ v. (refl, refl))
      & (λ v. (refl, refl))
      & (λ v. (refl, refl))
      & (λ v. (refl, refl))
      & (λ v. (refl, refl))
      & (λ v. (refl, refl))
      & (λ v. (refl, refl))
      & (λ v. (refl, refl))
      & (λ v. (refl, refl))
      & (λ v. (refl, refl))
      & (λ v. (refl, refl))
      & (λ v. (refl, refl))
      & (λ v. (refl, refl))
      & (λ v. (refl, refl))
      & (λ v. (refl, refl))
      & (λ v. (refl, refl))
      & (λ v. (refl, refl))
      & (λ v. (refl, refl))
      & (λ v. (refl, refl))
      & (λ v. (refl, refl))
      & tt

  with_sampling :
      (p q : SamplingConfig) (c : Configuration) (s : Bound)
      → All
          (RespectsAt P (Fits true) (precedence_flags P (sampled (some p) c)) (bound_to (some q) s))
          (precedence_flags P (sampled (some p) c))
  unfolding precedence_flags
  with_sampling p q c s =
      (λ v. (refl, refl))
      & (λ v. (refl, refl))
      & level_sets P (Fits true) (precedence_flags P (sampled (some p) c)) "log.level"
          (bound_to (some q) s) (λ l. (refl, refl))
      & (λ v. (refl, refl))
      & (λ v. (refl, refl))
      & (λ v. (refl, refl))
      & (λ v. (refl, refl))
      & (λ v. (refl, refl))
      & (λ v. (refl, refl))
      & (λ v. (refl, refl))
      & (λ v. (refl, refl))
      & (λ v. (refl, refl))
      & (λ v. (refl, refl))
      & (λ v. (refl, refl))
      & (λ v. (refl, refl))
      & (λ v. (refl, refl))
      & (λ v. (refl, refl))
      & (λ v. (refl, refl))
      & (λ v. (refl, refl))
      & (λ v. (refl, refl))
      & (λ v. (refl, refl))
      & (λ v. (refl, refl))
      & (λ v. (refl, refl))
      & (λ v. (refl, refl))
      & (λ v. (refl, refl))
      & (λ v. (refl, refl))
      & (λ v. (refl, refl))
      & (λ v. (refl, refl))
      & (λ v. (refl, refl))
      & (λ v. (refl, refl))
      & (λ v. (refl, refl))
      & tt

  bindings_at :
      (x y : Option SamplingConfig) (c : Configuration) (s : Bound)
      → is_some y ≡ is_some x
      → All
          (RespectsAt P (Fits (is_some x)) (precedence_flags P (sampled x c)) (bound_to y s))
          (precedence_flags P (sampled x c))
  bindings_at none none c s h = without_sampling c s
  bindings_at (some p) (some q) c s h = with_sampling p q c s
  bindings_at none (some q) c s h = absurd (cc)
  bindings_at (some p) none c s h = absurd (cc)

  pub bindings :
      (c : Configuration) (s : Bound)
      → Fits (is_some c.log.sampling) s
      → All
          (RespectsAt P (Fits (is_some c.log.sampling)) (precedence_flags P c) s)
          (precedence_flags P c)
  bindings c s h = bindings_at c.log.sampling s.cfg.log.sampling c s h
