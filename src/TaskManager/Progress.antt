-- ===== src/TaskManager/Progress.antt =====
-- When the goroutines of a process cannot go on with what they began.
use mathlib.Core.Path.{subst}
use frp_provisioner.Prelude.{
  ℕ, ◌≤◌, Bool, true, false, not, All, List, [], ◌∷◌, ◌++◌, ◌≡◌, ◌⊎◌, inl, inr, refl, sym, ap,
  Bool-cases,
}
use frp_provisioner.TaskManager.Moves.{
  Shared, Place, Goroutine, Move, State, Step, outside, go_called, go_locked, go_added, go_started,
  close_called, close_locked, close_cancelled, close_waited, client, task, ended, go_lock, go_add,
  go_start, go_unlock, close_lock, close_cancel, close_wait, close_unlock, client_moves, task_moves,
}
use frp_provisioner.TaskManager.Sums.{total, at}
use frp_provisioner.TaskManager.Deadlock.{cancelling}
use frp_provisioner.TaskManager.Ending.{is_call, goes_on}

-- A step that goes on with what was begun.
abbrev pub CanGoOn : State → Type 0
CanGoOn s = (t : State) × (m : Step s t) × (goes_on m ≡ true)

-- The goroutine is outside of GoCtx and Close, or its task has returned.
abbrev pub rests : Goroutine → Bool
rests (client outside) = true
rests ended = true
rests _ = false

-- A task that waits for the lock, or, in a Close of its own, for all tasks.
abbrev pub waits : Goroutine → ℕ
waits (task go_called) = 1
waits (task close_called) = 1
waits (task close_cancelled) = 1
waits _ = 0

-- A Close waits for the tasks, and one of them waits for the lock that it holds, or for itself.
abbrev pub IsHung : State → Type 0
IsHung s = (1 ≤ total (at cancelling) s.goroutines) × (1 ≤ total waits s.goroutines)

-- Some goroutine passes the test, or none does.
abbrev pub Found : (Goroutine → Bool) → List Goroutine → Type 0
Found f gs =
    (before : List Goroutine) × (g : Goroutine) × (after : List Goroutine) × (gs
      ≡ before ++ g ∷ after)
    × (f g ≡ true)

pub find : (f : Goroutine → Bool) (gs : List Goroutine) → Found f gs ⊎ All (λ g. f g ≡ false) gs
find f [] = inr tt
find f (g ∷ gs) = elim (Bool-cases (f g)) [
  | inl yes_here ↦ inl ([], g, gs, refl, yes_here)
  | inr not_here ↦ elim (find f gs) [
    | inl (before, x, after, e, h) ↦ inl (g ∷ before, x, after, ap (λ r. g ∷ r) e, h)
    | inr none_there ↦ inr (not_here, none_there)
  ]
]

-- Places that no one else holds up, and those that want the lock.
abbrev pub free : Place → Bool
free go_locked = true
free go_added = true
free go_started = true
free close_locked = true
free close_waited = true
free _ = false

abbrev pub wants : Place → Bool
wants go_called = true
wants close_called = true
wants _ = false

abbrev pub Moves : Shared → Place → Type 0
Moves s p =
    (t : Shared) × (q : Place) × (new : List Goroutine) × (m : Move s p t q new) × (not (is_call m)
      ≡ true)

pub free-Moves : (s : Shared) (p : Place) → free p ≡ true → Moves s p
free-Moves s go_locked h = (_, _, _, go_add, refl)
free-Moves s go_added h = (_, _, _, go_start, refl)
free-Moves s go_started h = (_, _, _, go_unlock, refl)
free-Moves s close_locked h = (_, _, _, close_cancel, refl)
free-Moves s close_waited h = (_, _, _, close_unlock, refl)
free-Moves s outside h = absurd (cc)
free-Moves s go_called h = absurd (cc)
free-Moves s close_called h = absurd (cc)
free-Moves s close_cancelled h = absurd (cc)

pub wants-Moves : (s : Shared) (p : Place) → s.locked ≡ false → wants p ≡ true → Moves s p
wants-Moves s p unlocked h =
    subst (λ b. Moves (record s { locked = b }) p) (sym unlocked) (locks_it p h)
  where
    locks_it : (p : Place) → wants p ≡ true → Moves (record s { locked = false }) p
    locks_it go_called h = (_, _, _, go_lock, refl)
    locks_it close_called h = (_, _, _, close_lock, refl)
    locks_it p h = absurd (cc)

pub cancelled-Moves : (s : Shared) → s.counter ≡ 0 → Moves s close_cancelled
cancelled-Moves s empty =
    subst (λ n. Moves (record s { counter = n }) close_cancelled) (sym empty)
      (_, _, _, close_wait, refl)

-- The place of a goroutine, if it is in some call.
abbrev pub stands : (Place → Bool) → Goroutine → Bool
stands f (client p) = f p
stands f (task p) = f p
stands f ended = false

pub Moves-CanGoOn :
    (f : Place → Bool) (s : Shared) (gs : List Goroutine)
    → ((p : Place) → f p ≡ true → Moves s p)
    → Found (stands f) gs
    → CanGoOn (record { shared = s; goroutines = gs })
Moves-CanGoOn f s gs moves (before, g, after, e, h) =
    subst (λ r. CanGoOn (record { shared = s; goroutines = r })) (sym e) (at_it g h)
  where
    at_it :
        (g : Goroutine)
        → stands f g ≡ true
        → CanGoOn (record { shared = s; goroutines = before ++ g ∷ after })
    at_it (client p) h = let (t, q, new, m, k) = moves p h in (_, client_moves before after m, k)
    at_it (task p) h = let (t, q, new, m, k) = moves p h in (_, task_moves before after m, k)
    at_it ended h = absurd (cc)
