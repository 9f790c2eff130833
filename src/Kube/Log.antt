-- ===== src/Kube/Log.antt =====
-- The log of calls: what was called since a given moment.
use mathlib.Core.List.{append_assoc, append-nil}
use frp_provisioner.Prelude.{List, [], ◌∷◌, ◌++◌, ◌≡◌, sym, ◌∙◌, ap, All, All-append, All-map}
use frp_provisioner.Go.{M, Keeps}
use frp_provisioner.Kube.Server.{Client, Call, World, perform, silently}

module _ {C : Client} where
  -- Every call after `before` is of this kind.
  abbrev pub Made : (Call → Type 0) → List Call → World C → Type 0
  Made P before w = (new : List Call) × (w.calls ≡ before ++ new) × All P new

  pub Made-start : (P : Call → Type 0) (w : World C) → Made P w.calls w
  Made-start P w = ([], sym (append-nil w.calls), tt)

  pub Made-weaken :
      (P Q : Call → Type 0) (before : List Call) (w : World C)
      → ((c : Call) → P c → Q c)
      → Made P before w
      → Made Q before w
  Made-weaken P Q before w f (new, e, h) = (new, e, All-map P Q f new h)

  pub perform-Made :
      {A : Type 0} (P : Call → Type 0) (before : List Call) (c : Call) (m : M C.State A)
      → P c
      → Keeps {S = World C} (Made P before) (perform c m)
  perform-Made P before c m h w (new, e, all) = (
    new ++ c ∷ [],
    ap (λ l. l ++ c ∷ []) e ∙ append_assoc before new (c ∷ []),
    All-append P new (c ∷ []) all (h, tt),
  )

  pub silently-Made :
      {A : Type 0} (P : Call → Type 0) (before : List Call) (m : M C.State A)
      → Keeps {S = World C} (Made P before) (silently m)
  silently-Made P before m w h = h
