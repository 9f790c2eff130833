-- ===== src/TaskManager/Deadlock.antt =====
-- A task that calls GoCtx while Close waits: Close holds the lock that the task wants, and waits for it.
use frp_provisioner.Prelude.{ℕ, ◌+◌, ◌≤◌, List, [], ◌∷◌, arith}
use frp_provisioner.TaskManager.Moves.{
  Shared, Place, Goroutine, Move, State, Step, Reachable, outside, go_called, go_locked, go_added,
  go_started, close_called, close_locked, close_cancelled, close_waited, client, task, ended,
  call_go, go_lock, go_add, go_start, go_unlock, call_close, close_lock, close_cancel, close_wait,
  close_unlock, client_moves, task_moves, task_ends, parent_cancels, step,
}
use frp_provisioner.TaskManager.Sums.{
  total, holds, at, counted, locks, total-at, middle, middle_new,
}
use frp_provisioner.TaskManager.Closing.{reachable-counts}

abbrev pub cancelling : Place → ℕ
cancelling close_cancelled = 1
cancelling outside = 0
cancelling go_called = 0
cancelling go_locked = 0
cancelling go_added = 0
cancelling go_started = 0
cancelling close_called = 0
cancelling close_locked = 0
cancelling close_waited = 0

abbrev blocked : Goroutine → ℕ
blocked (task go_called) = 1
blocked _ = 0

-- A goroutine is in Close, between cancel and Wait, and a task is at the Lock of GoCtx.
abbrev pub IsDeadlocked : State → Type 0
IsDeadlocked s = (1 ≤ total (at cancelling) s.goroutines) × (1 ≤ total blocked s.goroutines)

cancelling-holds : (p : Place) → cancelling p ≤ holds p
cancelling-holds outside = omega arith
cancelling-holds go_called = omega arith
cancelling-holds go_locked = omega arith
cancelling-holds go_added = omega arith
cancelling-holds go_started = omega arith
cancelling-holds close_called = omega arith
cancelling-holds close_locked = omega arith
cancelling-holds close_cancelled = omega arith
cancelling-holds close_waited = omega arith

blocked-counted : (gs : List Goroutine) → total blocked gs ≤ total counted gs
blocked-counted [] = omega arith
blocked-counted (client p ∷ gs) = omega (arith, blocked-counted gs)
blocked-counted (ended ∷ gs) = omega (arith, blocked-counted gs)
blocked-counted (task outside ∷ gs) = omega (arith, blocked-counted gs)
blocked-counted (task go_called ∷ gs) = omega (arith, blocked-counted gs)
blocked-counted (task go_locked ∷ gs) = omega (arith, blocked-counted gs)
blocked-counted (task go_added ∷ gs) = omega (arith, blocked-counted gs)
blocked-counted (task go_started ∷ gs) = omega (arith, blocked-counted gs)
blocked-counted (task close_called ∷ gs) = omega (arith, blocked-counted gs)
blocked-counted (task close_locked ∷ gs) = omega (arith, blocked-counted gs)
blocked-counted (task close_cancelled ∷ gs) = omega (arith, blocked-counted gs)
blocked-counted (task close_waited ∷ gs) = omega (arith, blocked-counted gs)

-- Nobody gets through Wait while the counter is not zero, nor through Lock while it is held.
stays_cancelling :
    {s t : Shared} {p q : Place} {new : List Goroutine} (others : ℕ)
    → Move s p t q new
    → 1 ≤ s.counter
    → 1 ≤ cancelling p + others
    → 1 ≤ cancelling q + others
stays_cancelling others call_go n h = omega arith
stays_cancelling others go_lock n h = omega arith
stays_cancelling others go_add n h = omega arith
stays_cancelling others go_start n h = omega arith
stays_cancelling others go_unlock n h = omega arith
stays_cancelling others call_close n h = omega arith
stays_cancelling others close_lock n h = omega arith
stays_cancelling others close_cancel n h = omega arith
stays_cancelling others close_wait n h = omega arith
stays_cancelling others close_unlock n h = omega arith

stays_blocked :
    {s t : Shared} {p q : Place} {new : List Goroutine} (others : ℕ)
    → Move s p t q new
    → 1 ≤ locks s.locked
    → 1 ≤ blocked (task p) + others
    → 1 ≤ blocked (task q) + others
stays_blocked others call_go l h = omega arith
stays_blocked others go_lock l h = omega arith
stays_blocked others go_add l h = omega arith
stays_blocked others go_start l h = omega arith
stays_blocked others go_unlock l h = omega arith
stays_blocked others call_close l h = omega arith
stays_blocked others close_lock l h = omega arith
stays_blocked others close_cancel l h = omega arith
stays_blocked others close_wait l h = omega arith
stays_blocked others close_unlock l h = omega arith

module _ (n : ℕ) {s : State} (r : Reachable n s) (dead : IsDeadlocked s) where
  held : 1 ≤ locks s.shared.locked
  held =
      let (lock, _) = reachable-counts n s r in
      omega (arith, total-at cancelling holds cancelling-holds s.goroutines)

  owed : 1 ≤ s.shared.counter
  owed = let (_, count) = reachable-counts n s r in omega (arith, blocked-counted s.goroutines)

Step-IsDeadlocked :
    (n : ℕ) {s t : State} → Reachable n s → IsDeadlocked s → Step s t → IsDeadlocked t
Step-IsDeadlocked n r (a, b) (client_moves {s} {t} {p} {q} {new} before after m) =
    let rest = total (at cancelling) before + total (at cancelling) after in
    let stays : 1 ≤ cancelling q + rest =
      stays_cancelling rest m (owed n r (a, b))
        (omega (arith, middle (at cancelling) before after (client p))) in
    (
      omega (arith, middle_new (at cancelling) before after new (client q)),
      omega (
        arith,
        middle blocked before after (client p),
        middle_new blocked before after new (client q),
      ),
    )
Step-IsDeadlocked n r (a, b) (task_moves {s} {t} {p} {q} {new} before after m) =
    let rest = total (at cancelling) before + total (at cancelling) after in
    let others = total blocked before + total blocked after in
    let stays : 1 ≤ cancelling q + rest =
      stays_cancelling rest m (owed n r (a, b))
        (omega (arith, middle (at cancelling) before after (task p))) in
    let waits : 1 ≤ blocked (task q) + others =
      stays_blocked others m (held n r (a, b))
        (omega (arith, middle blocked before after (task p))) in
    (
      omega (arith, middle_new (at cancelling) before after new (task q)),
      omega (arith, middle_new blocked before after new (task q)),
    )
Step-IsDeadlocked n r (a, b) (task_ends before after) = (
  omega (
    arith,
    middle (at cancelling) before after (task outside),
    middle (at cancelling) before after ended,
  ),
  omega (arith, middle blocked before after (task outside), middle blocked before after ended),
)
Step-IsDeadlocked n r dead parent_cancels = dead

-- Any number of further steps.
pub data Run : State → State → Type 0 where
  here : {s : State} → Run s s
  onward : {s t u : State} → Step s t → Run t u → Run s u

-- If, in a state that a process can reach, a Close stands between its cancel and its Wait while a task
-- stands at the Lock of GoCtx, then so it is after any number of further steps, whatever they are:
-- there is always a Close that does not return.
pub Run-IsDeadlocked :
    (n : ℕ) (s t : State) → Reachable n s → IsDeadlocked s → Run s t → IsDeadlocked t
Run-IsDeadlocked n s t r dead here = dead
Run-IsDeadlocked n s t r dead (onward m run) =
    Run-IsDeadlocked n _ t (step r m) (Step-IsDeadlocked n r dead m) run
