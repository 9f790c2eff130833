-- ===== src/TaskManager/Sums.antt =====
-- What goroutines hold and owe, by the statement at which they stand, and its sum over all of them.
use frp_provisioner.Prelude.{
  ℕ, suc, ◌+◌, ◌≤◌, Bool, true, false, List, [], ◌∷◌, ◌++◌, ◌≡◌, refl, arith,
}
use frp_provisioner.TaskManager.Moves.{
  Shared, Place, Goroutine, Move, outside, go_called, go_locked, go_added, go_started, close_called,
  close_locked, close_cancelled, close_waited, client, task, ended, call_go, go_lock, go_add,
  go_start, go_unlock, call_close, close_lock, close_cancel, close_wait, close_unlock,
}

abbrev pub total : (Goroutine → ℕ) → List Goroutine → ℕ
total f [] = 0
total f (g ∷ gs) = f g + total f gs

pub total-append :
    (f : Goroutine → ℕ) (xs ys : List Goroutine) → total f (xs ++ ys) ≡ total f xs + total f ys
total-append f [] ys = omega arith
total-append f (x ∷ xs) ys = omega (arith, total-append f xs ys)

-- Whether a place holds the lock, and how much it has added to the counter and not yet handed to a task.
abbrev pub holds : Place → ℕ
holds outside = 0
holds go_called = 0
holds close_called = 0
holds go_locked = 1
holds go_added = 1
holds go_started = 1
holds close_locked = 1
holds close_cancelled = 1
holds close_waited = 1

abbrev pub owes : Place → ℕ
owes go_added = 1
owes outside = 0
owes go_called = 0
owes go_locked = 0
owes go_started = 0
owes close_called = 0
owes close_locked = 0
owes close_cancelled = 0
owes close_waited = 0

abbrev pub counted : Goroutine → ℕ
counted (client p) = owes p
counted (task p) = suc (owes p)
counted ended = 0

abbrev pub locks : Bool → ℕ
locks true = 1
locks false = 0

-- Behind Wait, and behind cancel.
abbrev pub waited : Place → ℕ
waited close_waited = 1
waited close_cancelled = 0
waited outside = 0
waited go_called = 0
waited go_locked = 0
waited go_added = 0
waited go_started = 0
waited close_called = 0
waited close_locked = 0

abbrev pub stopped : Place → ℕ
stopped close_waited = 1
stopped close_cancelled = 1
stopped outside = 0
stopped go_called = 0
stopped go_locked = 0
stopped go_added = 0
stopped go_started = 0
stopped close_called = 0
stopped close_locked = 0

abbrev pub at : (Place → ℕ) → Goroutine → ℕ
at f (client p) = f p
at f (task p) = f p
at f ended = 0

-- New goroutines are outside.
pub new-total :
    {s t : Shared} {p q : Place} {new : List Goroutine} (f : Place → ℕ)
    → f outside ≡ 0
    → Move s p t q new
    → total (at f) new ≡ 0
new-total f e call_go = refl
new-total f e go_lock = refl
new-total f e go_add = refl
new-total f e go_start = omega arith
new-total f e go_unlock = refl
new-total f e call_close = refl
new-total f e close_lock = refl
new-total f e close_cancel = refl
new-total f e close_wait = refl
new-total f e close_unlock = refl

pub waited-holds : (p : Place) → waited p ≤ holds p
waited-holds outside = omega arith
waited-holds go_called = omega arith
waited-holds go_locked = omega arith
waited-holds go_added = omega arith
waited-holds go_started = omega arith
waited-holds close_called = omega arith
waited-holds close_locked = omega arith
waited-holds close_cancelled = omega arith
waited-holds close_waited = omega arith

pub waited-stopped : (p : Place) → waited p ≤ stopped p
waited-stopped outside = omega arith
waited-stopped go_called = omega arith
waited-stopped go_locked = omega arith
waited-stopped go_added = omega arith
waited-stopped go_started = omega arith
waited-stopped close_called = omega arith
waited-stopped close_locked = omega arith
waited-stopped close_cancelled = omega arith
waited-stopped close_waited = omega arith

pub total-at :
    (f g : Place → ℕ)
    → ((p : Place) → f p ≤ g p)
    → (gs : List Goroutine) → total (at f) gs ≤ total (at g) gs
total-at f g le [] = omega arith
total-at f g le (client p ∷ gs) = omega (arith, le p, total-at f g le gs)
total-at f g le (task p ∷ gs) = omega (arith, le p, total-at f g le gs)
total-at f g le (ended ∷ gs) = omega (arith, total-at f g le gs)

-- One goroutine against the others.
pub middle :
    (f : Goroutine → ℕ) (before after : List Goroutine) (g : Goroutine)
    → total f (before ++ g ∷ after) ≡ f g + (total f before + total f after)
middle f before after g = omega (arith, total-append f before (g ∷ after))

pub middle_new :
    (f : Goroutine → ℕ) (before after new : List Goroutine) (g : Goroutine)
    → total f (before ++ g ∷ (after ++ new)) ≡ f g + (total f before + total f after) + total f new
middle_new f before after new g =
    omega (arith, total-append f before (g ∷ (after ++ new)), total-append f after new)
