-- ===== src/TaskManager/Termination.antt =====
-- Every process whose goroutines make no new calls comes to rest, or hangs in a Close.
use frp_provisioner.Prelude.{
  ℕ, zero, suc, ◌≤◌, true, false, All, All-map, List, ◌≡◌, ◌⊎◌, inl, inr, ap, Bool-cases, arith,
}
use frp_provisioner.TaskManager.Moves.{Shared, Goroutine, State, Reachable, step}
use frp_provisioner.TaskManager.Sums.{total, holds, at, counted, locks}
use frp_provisioner.TaskManager.Closing.{reachable-counts}
use frp_provisioner.TaskManager.Deadlock.{cancelling}
use frp_provisioner.TaskManager.Ending.{work, Working, done, works, Step-work, Working-work}
use frp_provisioner.TaskManager.Progress.{
  CanGoOn, rests, waits, IsHung, find, free, wants, stands, free-Moves, wants-Moves, Moves-CanGoOn,
}
use frp_provisioner.TaskManager.Resting.{
  is_done, returned-CanGoOn, total-le, IsHeldUp, both, held_up-holds, held_up-counted, none_begun,
  cancelling-holds, everywhere, is_cancelling, none_cancelling, zeros, is_cancelling-Moves,
  zero_or_more,
}

-- What a state comes to.
abbrev pub IsSettled : State → Type 0
IsSettled s = All (λ g. rests g ≡ true) s.goroutines ⊎ IsHung s

module _ (s : Shared) (gs : List Goroutine) (lock : total (at holds) gs ≡ locks s.locked)
    (count : total counted gs ≡ s.counter) (held_up : All IsHeldUp gs) where
  -- Nobody holds the lock, so whoever wants it can have it.
  when_unlocked :
      s.locked ≡ false
      → IsSettled (record { shared = s; goroutines = gs })
        ⊎ CanGoOn (record { shared = s; goroutines = gs })
  when_unlocked unlocked = elim (find (stands wants) gs) [
    | inl wanted ↦ inr (Moves-CanGoOn wants s gs (λ p. wants-Moves s p unlocked) wanted)
    | inr none_wants ↦
        let free_lock : locks s.locked ≡ 0 = ap locks unlocked in
        inl (
          inl (
            none_begun gs held_up none_wants (
              omega
                (arith, total-le (at cancelling) (at holds) gs (everywhere cancelling-holds gs)))))
  ]

  -- The holder of the lock is a Close that waits for the tasks.
  when_locked :
      s.locked ≡ true
      → IsSettled (record { shared = s; goroutines = gs })
        ⊎ CanGoOn (record { shared = s; goroutines = gs })
  when_locked locked =
      let one : locks s.locked ≡ 1 = ap locks locked in
      let closing : 1 ≤ total (at cancelling) gs =
        omega
          (arith, total-le (at holds) (at cancelling) gs (All-map _ _ held_up-holds gs held_up)) in
      elim (find (stands is_cancelling) gs) [
        | inr none_closes ↦ absurd (
            omega (
              arith,
              zeros gs,
              total-le (at cancelling) (λ _. 0) gs (All-map _ _ none_cancelling gs none_closes),
            ))
        | inl closes ↦ elim (zero_or_more s.counter) [
          | inl empty ↦
              inr (Moves-CanGoOn is_cancelling s gs (λ p. is_cancelling-Moves s p empty) closes)
          | inr tasks ↦ inl (
              inr (
                closing,
                omega (arith, total-le counted waits gs (All-map _ _ held_up-counted gs held_up)),
              ))
        ]
      ]

-- A state that can be reached is settled, or some goroutine can go on with what it began.
progress : (n : ℕ) (s : State) → Reachable n s → IsSettled s ⊎ CanGoOn s
progress n s r =
    let (lock, count) = reachable-counts n s r in
    elim (find (stands free) s.goroutines) [
      | inl moves ↦ inr (Moves-CanGoOn free s.shared s.goroutines (free-Moves s.shared) moves)
      | inr none_moves ↦ elim (find is_done s.goroutines) [
        | inl returned ↦ inr (returned-CanGoOn s.shared s.goroutines count returned)
        | inr none_returned ↦
            let held_up = both s.goroutines none_moves none_returned in
            elim (Bool-cases s.shared.locked) [
              | inl locked ↦ when_locked s.shared s.goroutines lock count held_up locked
              | inr unlocked ↦ when_unlocked s.shared s.goroutines lock count held_up unlocked
            ]
      ]
    ]

settles :
    (n k : ℕ) (s : State)
    → Reachable n s
    → total work s.goroutines ≤ k
    → (j : ℕ) × (t : State) × Working j s t × IsSettled t
settles n zero s r bound = elim (progress n s r) [
  | inl settled ↦ (0, s, done, settled)
  | inr (t, m, h) ↦ absurd (omega (arith, Step-work m h))
]
settles n (suc k) s r bound = elim (progress n s r) [
  | inl settled ↦ (0, s, done, settled)
  | inr (t, m, h) ↦
      let (j, u, run, end) = settles n k t (step r m) (omega (arith, Step-work m h)) in
      (suc j, u, works m h run, end)
]

-- From every state that a process can reach, its goroutines can go on with what they began, without new
-- calls of GoCtx or Close, to a state in which all are outside of both and all tasks have returned, or
-- in which a Close waits for the tasks while one of them waits for the lock or in a Close of its own.
-- And however they go on, they make no more steps than their places and tasks have ahead of them.
pub reachable-settles :
    (n : ℕ) (s : State)
    → Reachable n s
    → ((j : ℕ) × (t : State) × Working j s t × IsSettled t)
      × ((j : ℕ) (t : State) → Working j s t → j ≤ total work s.goroutines)
reachable-settles n s r =
    (settles n (total work s.goroutines) s r (omega arith), λ j t w. omega (arith, Working-work w))
