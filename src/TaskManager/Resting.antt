-- ===== src/TaskManager/Resting.antt =====
-- Goroutines that can neither move freely nor end: what they hold, count and wait for.
use mathlib.Core.Path.{subst}
use frp_provisioner.Prelude.{
  ℕ, zero, suc, ◌≤◌, Bool, true, false, All, List, [], ◌∷◌, ◌++◌, ◌≡◌, ◌⊎◌, inl, inr, refl, sym, ap,
  ◌∙◌, arith,
}
use frp_provisioner.TaskManager.Moves.{
  Shared, Place, Goroutine, outside, go_called, close_cancelled, client, task, task_ends,
}
use frp_provisioner.TaskManager.Sums.{total, holds, at, counted, middle}
use frp_provisioner.TaskManager.Deadlock.{cancelling}
use frp_provisioner.TaskManager.Progress.{
  CanGoOn, rests, waits, Found, free, wants, stands, cancelled-Moves, Moves,
}

abbrev pub is_done : Goroutine → Bool
is_done (task outside) = true
is_done _ = false

-- A task that has returned is Done; the counter counts it.
pub returned-CanGoOn :
    (s : Shared) (gs : List Goroutine)
    → total counted gs ≡ s.counter
    → Found is_done gs
    → CanGoOn (record { shared = s; goroutines = gs })
returned-CanGoOn s gs counts (before, g, after, e, h) =
    subst (λ r. CanGoOn (record { shared = s; goroutines = r })) (sym e)
      (at_it g h (ap (total counted) (sym e) ∙ counts))
  where
    by_count :
        (n : ℕ)
        → 1 ≤ n
        → CanGoOn (record {
          shared = record s { counter = n };
          goroutines = before ++ task outside ∷ after;
        })
    by_count zero h = absurd (omega arith)
    by_count (suc n) h = (_, task_ends before after, refl)

    at_it :
        (g : Goroutine)
        → is_done g ≡ true
        → total counted (before ++ g ∷ after) ≡ s.counter
        → CanGoOn (record { shared = s; goroutines = before ++ g ∷ after })
    at_it (task outside) h c =
        by_count s.counter (omega (arith, middle counted before after (task outside)))
    at_it g h c = absurd (cc)

pub total-le :
    (f g : Goroutine → ℕ) (gs : List Goroutine) → All (λ x. f x ≤ g x) gs → total f gs ≤ total g gs
total-le f g [] h = omega arith
total-le f g (x ∷ gs) (h, hs) = omega (arith, total-le f g gs hs)

-- A goroutine that can neither move freely nor end.
abbrev pub IsHeldUp : Goroutine → Type 0
IsHeldUp g = (stands free g ≡ false) × (is_done g ≡ false)

pub both :
    (gs : List Goroutine)
    → All (λ g. stands free g ≡ false) gs
    → All (λ g. is_done g ≡ false) gs
    → All IsHeldUp gs
both [] h k = tt
both (g ∷ gs) (h, hs) (k, ks) = ((h, k), both gs hs ks)

pub held_up-holds : (g : Goroutine) → IsHeldUp g → at holds g ≤ at cancelling g
held_up-holds (client go_called) h = omega arith
held_up-holds (task go_called) h = omega arith
held_up-holds g h = ground arith

pub held_up-counted : (g : Goroutine) → IsHeldUp g → counted g ≤ waits g
held_up-counted (client go_called) h = omega arith
held_up-counted (task go_called) h = omega arith
held_up-counted g h = ground arith

pub held_up-rests :
    (g : Goroutine) → IsHeldUp g → stands wants g ≡ false → at cancelling g ≤ 0 → rests g ≡ true
held_up-rests (client go_called) h w c = absurd (cc)
held_up-rests (task go_called) h w c = absurd (cc)
held_up-rests g h w c = ground arith

pub none_begun :
    (gs : List Goroutine)
    → All IsHeldUp gs
    → All (λ g. stands wants g ≡ false) gs
    → total (at cancelling) gs ≤ 0
    → All (λ g. rests g ≡ true) gs
none_begun [] h w c = tt
none_begun (g ∷ gs) (h, hs) (w, ws) c =
    (held_up-rests g h w (omega arith), none_begun gs hs ws (omega arith))

pub cancelling-holds : (g : Goroutine) → at cancelling g ≤ at holds g
cancelling-holds (client go_called) = omega arith
cancelling-holds (task go_called) = omega arith
cancelling-holds g = ground arith

pub everywhere :
    {P : Goroutine → Type 0} → ((g : Goroutine) → P g) → (gs : List Goroutine) → All P gs
everywhere h [] = tt
everywhere h (g ∷ gs) = (h g, everywhere h gs)

-- Somewhere the sum is not zero.
abbrev pub is_cancelling : Place → Bool
is_cancelling close_cancelled = true
is_cancelling _ = false

pub none_cancelling : (g : Goroutine) → stands is_cancelling g ≡ false → at cancelling g ≤ 0
none_cancelling (client close_cancelled) h = absurd (cc)
none_cancelling (task close_cancelled) h = absurd (cc)
none_cancelling g h = omega arith

pub zeros : (gs : List Goroutine) → total (λ _. 0) gs ≡ 0
zeros [] = refl
zeros (g ∷ gs) = omega (arith, zeros gs)

pub is_cancelling-Moves :
    (s : Shared) (p : Place) → s.counter ≡ 0 → is_cancelling p ≡ true → Moves s p
is_cancelling-Moves s close_cancelled empty h = cancelled-Moves s empty
is_cancelling-Moves s p empty h = absurd (cc)

pub zero_or_more : (n : ℕ) → (n ≡ 0) ⊎ (1 ≤ n)
zero_or_more zero = inl refl
zero_or_more (suc n) = inr (omega arith)
