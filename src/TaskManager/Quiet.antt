-- ===== src/TaskManager/Quiet.antt =====
-- Tasks that do not call their manager: Close returns.
use frp_provisioner.Prelude.{
  ℕ, ◌≤◌, true, false, not, All, List, [], ◌∷◌, ◌≡◌, inl, inr, refl, arith,
}
use frp_provisioner.TaskManager.Moves.{
  Shared, Place, Goroutine, Move, State, Step, Reachable, outside, go_locked, client, task, ended,
  call_go, go_lock, go_add, go_start, go_unlock, call_close, close_lock, close_cancel, close_wait,
  close_unlock, client_moves, task_moves, task_ends, parent_cancels,
}
use frp_provisioner.TaskManager.Sums.{total, middle, middle_new}
use frp_provisioner.TaskManager.Ending.{is_call, goes_on, Working, done, works}
use frp_provisioner.TaskManager.Progress.{rests, waits}
use frp_provisioner.TaskManager.Termination.{reachable-settles}

-- A task in a call of its manager.
abbrev pub inside : Goroutine → ℕ
inside (task outside) = 0
inside (task _) = 1
inside _ = 0

new-inside :
    {s t : Shared} {p q : Place} {new : List Goroutine} → Move s p t q new → total inside new ≡ 0
new-inside go_start = omega arith
new-inside call_go = refl
new-inside go_lock = refl
new-inside go_add = refl
new-inside go_unlock = refl
new-inside call_close = refl
new-inside close_lock = refl
new-inside close_cancel = refl
new-inside close_wait = refl
new-inside close_unlock = refl

-- From outside there are only calls.
outside-is_call :
    {s t : Shared} {p q : Place} {new : List Goroutine} (m : Move s p t q new)
    → inside (task p) ≡ 0
    → not (is_call m) ≡ false
outside-is_call call_go h = refl
outside-is_call call_close h = refl
outside-is_call go_lock h = absurd (omega arith)
outside-is_call go_add h = absurd (omega arith)
outside-is_call go_start h = absurd (omega arith)
outside-is_call go_unlock h = absurd (omega arith)
outside-is_call close_lock h = absurd (omega arith)
outside-is_call close_cancel h = absurd (omega arith)
outside-is_call close_wait h = absurd (omega arith)
outside-is_call close_unlock h = absurd (omega arith)

Step-inside :
    {s t : State} (m : Step s t)
    → goes_on m ≡ true
    → total inside s.goroutines ≡ 0
    → total inside t.goroutines ≡ 0
Step-inside (client_moves {p} {q} {new} before after m) h none = omega (
  arith,
  new-inside m,
  middle inside before after (client p),
  middle_new inside before after new (client q),
)
Step-inside (task_moves {p} {q} {new} before after m) h none =
    let call = outside-is_call m (omega (arith, middle inside before after (task p))) in absurd (cc)
Step-inside (task_ends before after) h none =
    omega (arith, middle inside before after (task outside), middle inside before after ended)
Step-inside parent_cancels h none = absurd (cc)

Working-inside :
    {k : ℕ} {s t : State}
    → Working k s t
    → total inside s.goroutines ≡ 0
    → total inside t.goroutines ≡ 0
Working-inside done none = none
Working-inside (works m h rest) none = Working-inside rest (Step-inside m h none)

waits-inside : (g : Goroutine) → waits g ≤ inside g
waits-inside (task go_locked) = omega arith
waits-inside (client p) = omega arith
waits-inside ended = omega arith
waits-inside g = omega arith

total-waits : (gs : List Goroutine) → total waits gs ≤ total inside gs
total-waits [] = omega arith
total-waits (g ∷ gs) = omega (arith, waits-inside g, total-waits gs)

-- From every state that a process can reach and in which no task is in a call of the manager, the
-- goroutines can go on with what they began, without new calls, to a state in which all are outside of
-- GoCtx and Close and all tasks have returned: every Close that was called has returned.
pub reachable-rests :
    (n : ℕ) (s : State)
    → Reachable n s
    → total inside s.goroutines ≡ 0
    → (j : ℕ) × (t : State) × Working j s t × All (λ g. rests g ≡ true) t.goroutines
reachable-rests n s r none =
    let (j, t, run, end) = (reachable-settles n s r).0 in
    elim end [
      | inl rest ↦ (j, t, run, rest)
      | inr (_, hung) ↦ absurd (omega (arith, Working-inside run none, total-waits t.goroutines))
    ]
