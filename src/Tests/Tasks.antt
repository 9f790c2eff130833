-- ===== src/Tests/Tasks.antt =====
-- One client that starts a task and closes the manager, in two orders.
use frp_provisioner.Prelude.{ℕ, ◌≤◌, true, List, [], ◌∷◌, ◌≡◌, refl, All, arith}
use frp_provisioner.TaskManager.{
  work, Working, IsSettled, reachable-settles, rests, reachable-rests, Goroutine, State, Reachable,
  at_start, step, client, task, ended, outside, close_waited, close_cancelled, go_called, call_go,
  go_lock, go_add, go_start, go_unlock, call_close, close_lock, close_cancel, close_wait,
  client_moves, task_moves, task_ends, parent_cancels, here, onward, total, holds, at, counted,
  locks, IsDone, reachable-counts, reachable-IsDone, IsDeadlocked, Run-IsDeadlocked,
}

abbrev closing_with : ℕ → List Goroutine → State
closing_with n gs = record {
  shared = record { locked = true; cancelled = true; counter = n };
  goroutines = gs;
}

-- The task is started, and Close is behind its cancel.
cancelled : Reachable 1 (closing_with 1 (client close_cancelled ∷ task outside ∷ []))
cancelled =
    step
      (step
        (step
          (step
            (step
              (step (step (step at_start (client_moves [] [] call_go)) (client_moves [] [] go_lock))
                (client_moves [] [] go_add))
              (client_moves [] [] go_start))
            (client_moves [] (task outside ∷ []) go_unlock))
          (client_moves [] (task outside ∷ []) call_close))
        (client_moves [] (task outside ∷ []) close_lock))
      (client_moves [] (task outside ∷ []) close_cancel)

abbrev closed : State
closed = closing_with 0 (client close_waited ∷ ended ∷ [])

-- The task returns, and Close comes through.
waited : Reachable 1 closed
waited =
    step (step cancelled (task_ends (client close_cancelled ∷ []) []))
      (client_moves [] (ended ∷ []) close_wait)

reachable-counts_example :
    (total (at holds) closed.goroutines ≡ locks closed.shared.locked)
    × (total counted closed.goroutines ≡ closed.shared.counter)
reachable-counts_example = reachable-counts 1 closed waited

reachable-IsDone_example : (closed.shared.cancelled ≡ true) × All IsDone closed.goroutines
reachable-IsDone_example = reachable-IsDone 1 closed waited refl

-- The task calls GoCtx instead.
abbrev stuck : State
stuck = closing_with 1 (client close_cancelled ∷ task go_called ∷ [])

blocks : Reachable 1 stuck
blocks = step cancelled (task_moves (client close_cancelled ∷ []) [] call_go)

stuck-IsDeadlocked : IsDeadlocked stuck
stuck-IsDeadlocked = (omega arith, omega arith)

Run-IsDeadlocked_example : IsDeadlocked stuck
Run-IsDeadlocked_example =
    Run-IsDeadlocked 1 stuck stuck blocks stuck-IsDeadlocked (onward parent_cancels here)

reachable-settles_example :
    ((j : ℕ) × (t : State) × Working j stuck t × IsSettled t)
    × ((j : ℕ) (t : State) → Working j stuck t → j ≤ total work stuck.goroutines)
reachable-settles_example = reachable-settles 1 stuck blocks

reachable-rests_example :
    (j : ℕ) × (t : State) × Working j
      (closing_with 1 (client close_cancelled ∷ task outside ∷ []))
      t
    × All (λ g. rests g ≡ true) t.goroutines
reachable-rests_example =
    reachable-rests 1 (closing_with 1 (client close_cancelled ∷ task outside ∷ [])) cancelled
      (omega arith)
