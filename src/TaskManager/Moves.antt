-- ===== src/TaskManager/Moves.antt =====
-- pkg/safe/groutine.go: what the goroutines of a process do with one task manager, as atomic moves. A
-- goroutine stands between two statements of GoCtx or of Close, or outside of both.
use frp_provisioner.Prelude.{ℕ, zero, suc, Bool, true, false, List, [], ◌∷◌, ◌++◌}

-- The fields of `taskManager`: whether the lock is held, whether the context is cancelled, and the
-- counter of the wait group.
pub record Shared : Type 0 where
  pub locked : Bool
  pub cancelled : Bool
  pub counter : ℕ

pub data Place : Type 0 where
  outside : Place
  -- in GoCtx: it was called, and behind Lock, Add and Go
  go_called : Place
  go_locked : Place
  go_added : Place
  go_started : Place
  -- in Close: it was called, and behind Lock, cancel and Wait
  close_called : Place
  close_locked : Place
  close_cancelled : Place
  close_waited : Place

-- A task is the goroutine that GoCtx started, up to its deferred Done.
pub data Goroutine : Type 0 where
  client : Place → Goroutine
  task : Place → Goroutine
  ended : Goroutine

-- What the statements do to the manager at the places of one goroutine, with the goroutines started.
pub data Move : Shared → Place → Shared → Place → List Goroutine → Type 0 where
  call_go : {s : Shared} → Move s outside s go_called []
  go_lock :
      {c : Bool} {n : ℕ}
      → Move
          (record { locked = false; cancelled = c; counter = n })
          go_called
          (record { locked = true; cancelled = c; counter = n })
          go_locked
          []
  go_add :
      {l c : Bool} {n : ℕ}
      → Move
          (record { locked = l; cancelled = c; counter = n })
          go_locked
          (record { locked = l; cancelled = c; counter = suc n })
          go_added
          []
  go_start : {s : Shared} → Move s go_added s go_started (task outside ∷ [])
  go_unlock :
      {l c : Bool} {n : ℕ}
      → Move
          (record { locked = l; cancelled = c; counter = n })
          go_started
          (record { locked = false; cancelled = c; counter = n })
          outside
          []
  call_close : {s : Shared} → Move s outside s close_called []
  close_lock :
      {c : Bool} {n : ℕ}
      → Move
          (record { locked = false; cancelled = c; counter = n })
          close_called
          (record { locked = true; cancelled = c; counter = n })
          close_locked
          []
  close_cancel :
      {l c : Bool} {n : ℕ}
      → Move
          (record { locked = l; cancelled = c; counter = n })
          close_locked
          (record { locked = l; cancelled = true; counter = n })
          close_cancelled
          []
  -- Wait returns when the counter is zero.
  close_wait :
      {l c : Bool}
      → Move
          (record { locked = l; cancelled = c; counter = 0 })
          close_cancelled
          (record { locked = l; cancelled = c; counter = 0 })
          close_waited
          []
  close_unlock :
      {l c : Bool} {n : ℕ}
      → Move
          (record { locked = l; cancelled = c; counter = n })
          close_waited
          (record { locked = false; cancelled = c; counter = n })
          outside
          []

pub record State : Type 0 where
  pub shared : Shared
  pub goroutines : List Goroutine

-- One step of the process: a goroutine moves, a task returns and is Done, or the parent's context is
-- cancelled. A panic of a task ends the process, since the recovery that Go names panics anew.
pub data Step : State → State → Type 0 where
  client_moves :
      {s t : Shared} {p q : Place} {new : List Goroutine} (before after : List Goroutine)
      → Move s p t q new
      → Step
          (record { shared = s; goroutines = before ++ client p ∷ after })
          (record { shared = t; goroutines = before ++ client q ∷ (after ++ new) })
  task_moves :
      {s t : Shared} {p q : Place} {new : List Goroutine} (before after : List Goroutine)
      → Move s p t q new
      → Step
          (record { shared = s; goroutines = before ++ task p ∷ after })
          (record { shared = t; goroutines = before ++ task q ∷ (after ++ new) })
  task_ends :
      {l c : Bool} {n : ℕ} (before after : List Goroutine)
      → Step
          (record {
            shared = record { locked = l; cancelled = c; counter = suc n };
            goroutines = before ++ task outside ∷ after;
          })
          (record {
            shared = record { locked = l; cancelled = c; counter = n };
            goroutines = before ++ ended ∷ after;
          })
  parent_cancels :
      {l c : Bool} {n : ℕ} {gs : List Goroutine}
      → Step
          (record { shared = record { locked = l; cancelled = c; counter = n }; goroutines = gs })
          (record {
            shared = record { locked = l; cancelled = true; counter = n };
            goroutines = gs;
          })

-- NewTaskManager
abbrev pub new_task_manager : Shared
new_task_manager = record { locked = false; cancelled = false; counter = 0 }

abbrev pub clients : ℕ → List Goroutine
clients zero = []
clients (suc n) = client outside ∷ clients n

-- A process with n goroutines besides the tasks.
abbrev pub start : ℕ → State
start n = record { shared = new_task_manager; goroutines = clients n }

pub data Reachable (n : ℕ) : State → Type 0 where
  at_start : Reachable n (start n)
  step : {s t : State} → Reachable n s → Step s t → Reachable n t
