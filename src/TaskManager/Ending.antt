-- ===== src/TaskManager/Ending.antt =====
-- How long the goroutines can go on when none of them calls GoCtx or Close anew.
use frp_provisioner.Prelude.{ℕ, zero, suc, ◌+◌, ◌≤◌, Bool, true, false, not, List, ◌≡◌, arith}
use frp_provisioner.TaskManager.Moves.{
  Shared, Place, Goroutine, Move, State, Step, outside, go_called, go_locked, go_added, go_started,
  close_called, close_locked, close_cancelled, close_waited, client, task, ended, call_go, go_lock,
  go_add, go_start, go_unlock, call_close, close_lock, close_cancel, close_wait, close_unlock,
  client_moves, task_moves, task_ends, parent_cancels,
}
use frp_provisioner.TaskManager.Sums.{total, middle, middle_new}

-- Whether a move is a new call.
abbrev pub is_call : {s t : Shared} {p q : Place} {new : List Goroutine} → Move s p t q new → Bool
is_call call_go = true
is_call call_close = true
is_call go_lock = false
is_call go_add = false
is_call go_start = false
is_call go_unlock = false
is_call close_lock = false
is_call close_cancel = false
is_call close_wait = false
is_call close_unlock = false

-- Whether a step goes on with what was begun: no new call, and not the parent's context.
abbrev pub goes_on : {s t : State} → Step s t → Bool
goes_on (client_moves _ _ m) = not (is_call m)
goes_on (task_moves _ _ m) = not (is_call m)
goes_on (task_ends _ _) = true
goes_on parent_cancels = false

-- The steps that a goroutine and the tasks that it starts can still make.
abbrev pub ahead : Place → ℕ
ahead outside = 0
ahead go_called = 5
ahead go_locked = 4
ahead go_added = 3
ahead go_started = 1
ahead close_called = 4
ahead close_locked = 3
ahead close_cancelled = 2
ahead close_waited = 1

abbrev pub work : Goroutine → ℕ
work (client p) = ahead p
work (task p) = suc (ahead p)
work ended = 0

Move-work :
    {s t : Shared} {p q : Place} {new : List Goroutine} (m : Move s p t q new)
    → not (is_call m) ≡ true
    → suc (ahead q + total work new) ≤ ahead p
Move-work call_go h = absurd (cc)
Move-work call_close h = absurd (cc)
Move-work go_lock h = omega arith
Move-work go_add h = omega arith
Move-work go_start h = omega arith
Move-work go_unlock h = omega arith
Move-work close_lock h = omega arith
Move-work close_cancel h = omega arith
Move-work close_wait h = omega arith
Move-work close_unlock h = omega arith

pub Step-work :
    {s t : State} (m : Step s t)
    → goes_on m ≡ true
    → suc (total work t.goroutines) ≤ total work s.goroutines
Step-work (client_moves {p} {q} {new} before after m) h = omega (
  arith,
  Move-work m h,
  middle work before after (client p),
  middle_new work before after new (client q),
)
Step-work (task_moves {p} {q} {new} before after m) h = omega (
  arith,
  Move-work m h,
  middle work before after (task p),
  middle_new work before after new (task q),
)
Step-work (task_ends before after) h =
    omega (arith, middle work before after (task outside), middle work before after ended)
Step-work parent_cancels h = absurd (cc)

-- So many steps, none of which is a new call.
pub data Working : ℕ → State → State → Type 0 where
  done : {s : State} → Working zero s s
  works :
      {k : ℕ} {s t u : State} (m : Step s t)
      → goes_on m ≡ true
      → Working k t u
      → Working (suc k) s u

pub Working-work :
    {k : ℕ} {s t : State} → Working k s t → k + total work t.goroutines ≤ total work s.goroutines
Working-work done = omega arith
Working-work (works m h rest) = omega (arith, Step-work m h, Working-work rest)
