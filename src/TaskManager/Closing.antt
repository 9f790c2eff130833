-- ===== src/TaskManager/Closing.antt =====
-- The lock, the counter, and what Close has waited for.
use mathlib.Core.Path.{subst}
use frp_provisioner.Prelude.{
  ℕ, zero, suc, any, All, Bool-cases, ◌+◌, ◌≤◌, Bool, true, false, List, [], ◌∷◌, ◌≡◌, ◌⊎◌, inl,
  inr, refl, arith, sym, ◌∙◌,
}
use frp_provisioner.TaskManager.Moves.{
  Shared, Place, Goroutine, Move, State, Step, clients, Reachable, outside, close_waited, client,
  task, ended, call_go, go_lock, go_add, go_start, go_unlock, call_close, close_lock, close_cancel,
  close_wait, close_unlock, client_moves, task_moves, task_ends, parent_cancels, at_start, step,
}
use frp_provisioner.TaskManager.Sums.{
  total, holds, owes, waited, stopped, at, counted, locks, new-total, waited-holds, waited-stopped,
  total-at, middle, middle_new,
}

-- The sums over all goroutines against the manager: the lock is held by one goroutine or none; the
-- counter counts the tasks that are not done; behind Wait it is zero; behind cancel the context is
-- cancelled.
abbrev Agrees : Shared → ℕ → ℕ → ℕ → ℕ → Type 0
Agrees s h c w k =
    (h ≡ locks s.locked)
    × (c ≡ s.counter)
    × ((w ≡ 0) ⊎ (s.counter ≡ 0))
    × ((k ≡ 0) ⊎ (s.cancelled ≡ true))

-- A move keeps this, whatever the others hold.
Move-Agrees :
    {s t : Shared} {p q : Place} {new : List Goroutine} (h c w k : ℕ)
    → Move s p t q new
    → w ≤ h
    → Agrees s (holds p + h) (owes p + c) (waited p + w) (stopped p + k)
    → Agrees t (holds q + h) (owes q + c + total counted new) (waited q + w) (stopped q + k)
Move-Agrees h c w k call_go e (a, b, d, g) =
    (ground arith, ground arith, ground arith, ground arith)
Move-Agrees h c w k go_lock e (a, b, d, g) =
    (ground arith, ground arith, ground arith, ground arith)
Move-Agrees h c w k (go_add {l}) e (a, b, d, g) =
    (ground arith, ground arith, ground arith, ground arith)
Move-Agrees h c w k go_start e (a, b, d, g) =
    (ground arith, ground arith, ground arith, ground arith)
Move-Agrees h c w k go_unlock e (a, b, d, g) =
    (ground arith, ground arith, ground arith, ground arith)
Move-Agrees h c w k call_close e (a, b, d, g) =
    (ground arith, ground arith, ground arith, ground arith)
Move-Agrees h c w k close_lock e (a, b, d, g) =
    (ground arith, ground arith, ground arith, ground arith)
Move-Agrees h c w k close_cancel e (a, b, d, g) =
    (ground arith, ground arith, ground arith, ground arith)
Move-Agrees h c w k close_wait e (a, b, d, g) =
    (ground arith, ground arith, ground arith, ground arith)
Move-Agrees h c w k close_unlock e (a, b, d, g) =
    (ground arith, ground arith, ground arith, ground arith)

Agrees-along :
    (s : Shared) {h h' c c' w w' k k' : ℕ}
    → h ≡ h'
    → c ≡ c'
    → w ≡ w'
    → k ≡ k'
    → Agrees s h c w k
    → Agrees s h' c' w' k'
Agrees-along s {h} {h'} {c} {c'} {w} {w'} {k} {k'} a b d e x =
    subst (λ (n : ℕ). Agrees s n c' w' k') a
      (subst (λ (n : ℕ). Agrees s h n w' k') b
        (subst (λ (n : ℕ). Agrees s h c n k') d (subst (λ (n : ℕ). Agrees s h c w n) e x)))

abbrev IsConsistent : State → Type 0
IsConsistent s =
    Agrees s.shared (total (at holds) s.goroutines) (total counted s.goroutines)
      (total (at waited) s.goroutines) (total (at stopped) s.goroutines)

Step-IsConsistent : {s t : State} → Step s t → IsConsistent s → IsConsistent t
Step-IsConsistent (client_moves {s} {t} {p} {q} {new} before after m) x =
    let others = λ (f : Goroutine → ℕ). total f before + total f after in
    let y =
      Agrees-along s (middle (at holds) before after (client p))
        (middle counted before after (client p)) (middle (at waited) before after (client p))
        (middle (at stopped) before after (client p)) x in
    let z =
      Move-Agrees (others (at holds)) (others counted) (others (at waited)) (others (at stopped)) m
        (omega (
          arith,
          total-at waited holds waited-holds before,
          total-at waited holds waited-holds after,
        ))
        y in
    Agrees-along t
      (omega (arith, middle_new (at holds) before after new (client q), new-total holds refl m))
      (sym (middle_new counted before after new (client q)))
      (omega (arith, middle_new (at waited) before after new (client q), new-total waited refl m))
      (omega (arith, middle_new (at stopped) before after new (client q), new-total stopped refl m))
      z
Step-IsConsistent (task_moves {s} {t} {p} {q} {new} before after m) x =
    let others = λ (f : Goroutine → ℕ). total f before + total f after in
    let y =
      Agrees-along s (middle (at holds) before after (task p))
        (omega (arith, middle counted before after (task p)))
        (middle (at waited) before after (task p)) (middle (at stopped) before after (task p)) x in
    let z =
      Move-Agrees (others (at holds)) (suc (others counted)) (others (at waited))
        (others (at stopped)) m
        (omega (
          arith,
          total-at waited holds waited-holds before,
          total-at waited holds waited-holds after,
        ))
        y in
    Agrees-along t
      (omega (arith, middle_new (at holds) before after new (task q), new-total holds refl m))
      (omega (arith, middle_new counted before after new (task q)))
      (omega (arith, middle_new (at waited) before after new (task q), new-total waited refl m))
      (omega (arith, middle_new (at stopped) before after new (task q), new-total stopped refl m)) z
Step-IsConsistent (task_ends before after) (a, b, d, g) = (
  omega
      (arith, middle (at holds) before after (task outside), middle (at holds) before after ended),
  omega (arith, middle counted before after (task outside), middle counted before after ended),
  elim d [
    | inl none_waits ↦ inl (
        omega (
          arith,
          middle (at waited) before after (task outside),
          middle (at waited) before after ended,
        ))
    | inr e ↦ absurd (omega arith)
  ],
  elim g [
    | inl none_stopped ↦ inl (
        omega (
          arith,
          middle (at stopped) before after (task outside),
          middle (at stopped) before after ended,
        ))
    | inr e ↦ inr e
  ],
)
Step-IsConsistent parent_cancels (a, b, d, g) = (a, b, d, inr refl)

reachable-IsConsistent : (n : ℕ) {s : State} → Reachable n s → IsConsistent s
reachable-IsConsistent n at_start = let (a, b, c, d) = none_inside n in (a, b, inl c, inl d)
  where
    none_inside :
        (n : ℕ)
        → (total (at holds) (clients n) ≡ 0)
          × (total counted (clients n) ≡ 0)
          × (total (at waited) (clients n) ≡ 0)
          × (total (at stopped) (clients n) ≡ 0)
    none_inside zero = (refl, refl, refl, refl)
    none_inside (suc n) =
        let (a, b, c, d) = none_inside n in (omega arith, omega arith, omega arith, omega arith)
reachable-IsConsistent n (step r m) = Step-IsConsistent m (reachable-IsConsistent n r)

-- In every state that a process can reach, the lock is held by one goroutine if it is locked and by
-- none if it is not, and the counter of the wait group is the number of tasks that have not returned,
-- and of calls of GoCtx between their Add and their Go.
pub reachable-counts :
    (n : ℕ) (s : State)
    → Reachable n s
    → (total (at holds) s.goroutines ≡ locks s.shared.locked)
      × (total counted s.goroutines ≡ s.shared.counter)
reachable-counts n s r = let (a, b, _, _) = reachable-IsConsistent n r in (a, b)

-- The goroutine stands behind the Wait of Close, and has not unlocked yet.
abbrev pub is_closing : Goroutine → Bool
is_closing (client close_waited) = true
is_closing (task close_waited) = true
is_closing _ = false

abbrev pub IsDone : Goroutine → Type 0
IsDone (task _) = ⊥
IsDone _ = Unit

closing-waited : (g : Goroutine) → is_closing g ≡ true → 1 ≤ at waited g
closing-waited (client close_waited) h = omega arith
closing-waited (task close_waited) h = omega arith
closing-waited g h = absurd (cc)

any-waited : (gs : List Goroutine) → any is_closing gs ≡ true → 1 ≤ total (at waited) gs
any-waited [] h = absurd (cc)
any-waited (g ∷ gs) h = elim (Bool-cases (is_closing g)) [
  | inl closing ↦ omega (arith, closing-waited g closing)
  | inr other ↦ omega (arith, any-waited gs (ground arith))
]

none_counted : (gs : List Goroutine) → total counted gs ≡ 0 → All IsDone gs
none_counted [] h = tt
none_counted (client p ∷ gs) h = (tt, none_counted gs (omega arith))
none_counted (task p ∷ gs) h = absurd (omega arith)
none_counted (ended ∷ gs) h = (tt, none_counted gs (omega arith))

-- When Close has come through its Wait, in whatever order the goroutines of the process ran, the
-- context is cancelled and every task that was ever started has returned.
pub reachable-IsDone :
    (n : ℕ) (s : State)
    → Reachable n s
    → any is_closing s.goroutines ≡ true
    → (s.shared.cancelled ≡ true) × All IsDone s.goroutines
reachable-IsDone n s r closing =
    let (_, counts, waits, stops) = reachable-IsConsistent n r in
    let behind = any-waited s.goroutines closing in
    (
      elim stops [
        | inl none_stopped ↦
            absurd (omega (arith, total-at waited stopped waited-stopped s.goroutines))
        | inr cancelled ↦ cancelled
      ],
      elim waits [
        | inl none_waits ↦ absurd (omega arith)
        | inr empty ↦ none_counted s.goroutines (counts ∙ empty)
      ],
    )
