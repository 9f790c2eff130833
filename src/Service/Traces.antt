-- ===== src/Service/Traces.antt =====
-- The requests of each branch of Reconcile, one by one and in order.
use mathlib.Core.List.{append_assoc, append-nil}
use frp_provisioner.Prelude.{
  ◌<>◌, List, [], ◌∷◌, ◌++◌, map, ◌≡◌, inl, inr, refl, sym, ◌∙◌, ap, arith, if◌then◌else◌,
}
use frp_provisioner.Go.{
  continue-keeps, return_error-Keeps, errorf_w, handle-Returns, GoError, M, ok, err, Result, panic,
  pure, fail, continue, handle-eq-ok, >>=-eq-ok,
}
use frp_provisioner.Kube.{
  ObjectKey, Pod, Service, with_finalizers, Machinery, Client, Call, World, perform,
}
use frp_provisioner.Api.{finalizer_name}
use frp_provisioner.Service.Defs.{request_text, note_error, delete_pods, drop_finalizer, clean_up}

-- The result is a return, with or without an error.
abbrev pub Returned : {A : Type 0} → Result A → Type 0
Returned (panic _) = ⊥
Returned _ = Unit {0}

abbrev pub NoError : {A : Type 0} → Result A → Type 0
NoError (err _) = ⊥
NoError _ = Unit {0}

module _ (L : Machinery) (C : Client) where
  -- One call in front of those that follow.
  prepend :
      (before middle after xs : List Call) (c : Call)
      → before ++ c ∷ [] ≡ middle
      → after ≡ middle ++ xs
      → after ≡ before ++ c ∷ xs
  prepend before middle after xs c e k =
      k ∙ ap (λ l. l ++ xs) (sym e) ∙ append_assoc before (c ∷ []) xs

  note_error-eq-ok :
      (wording : GoError → GoError) (rest : M (World C) (List GoError)) (e : GoError) (u : World C)
      {errors : List GoError} {t : World C}
      → note_error L C wording rest e u ≡ (ok errors, t)
      → (es : List GoError) × (rest u ≡ (ok es, t))
  unfolding note_error
  note_error-eq-ok wording rest e u h =
      let next = λ (es : List GoError).
        pure {S = World C} (if L.is_not_found e then es else wording e ∷ es) in
      let (es, v, p, k) = >>=-eq-ok rest next u h in (es, ground arith)

  pub delete_pods-calls :
      (wording : GoError → GoError) (ps : List Pod) (w : World C) {errors : List GoError}
      {u : World C}
      → delete_pods L C wording ps w ≡ (ok errors, u)
      → u.calls ≡ w.calls ++ map Call.delete_pod ps
  unfolding delete_pods
  delete_pods-calls wording [] w h =
      sym (ap (λ (r : Result (List GoError) × World C). r.1.calls) h) ∙ sym (append-nil w.calls)
  delete_pods-calls wording (p ∷ ps) w {u = t} h =
      let rest = delete_pods L C wording ps in
      let calls_of = λ (r : Result (Unit {0}) × World C). r.1.calls in
      elim (handle-eq-ok (perform (Call.delete_pod p) (C.delete_pod p))
        (note_error L C wording rest) (λ _. rest) w h) [
          | inl (a, u, e, k) ↦
              prepend w.calls u.calls t.calls (map Call.delete_pod ps) (Call.delete_pod p)
                (ap calls_of e) (delete_pods-calls wording ps u k)
          | inr (x, u, e, k) ↦
              let (es, q) = note_error-eq-ok wording rest x u k in
              prepend w.calls u.calls t.calls (map Call.delete_pod ps) (Call.delete_pod p)
                (ap calls_of e) (delete_pods-calls wording ps u q)
        ]

  mapped-NoError :
      (r : Result (List GoError)) (u : World C) (f : List GoError → List GoError)
      → NoError r
      → NoError (continue (r, u) fail (λ es. pure (f es))).0
  mapped-NoError (ok es) u f h = tt
  mapped-NoError (err e) u f h = h
  mapped-NoError (panic m) u f h = tt

  note_error-NoError :
      (wording : GoError → GoError) (e : GoError) (rest : M (World C) (List GoError)) (u : World C)
      → NoError (rest u).0
      → NoError (note_error L C wording rest e u).0
  unfolding note_error
  note_error-NoError wording e rest u h = mapped-NoError (rest u).0 (rest u).1 _ h

  -- The loop gathers errors and returns none.
  delete_pods-NoError :
      (wording : GoError → GoError) (ps : List Pod) (w : World C)
      → NoError (delete_pods L C wording ps w).0
  unfolding delete_pods
  delete_pods-NoError wording [] w = tt
  delete_pods-NoError wording (p ∷ ps) w =
      let rest = delete_pods L C wording ps in
      handle-Returns NoError (perform (Call.delete_pod p) (C.delete_pod p))
        (note_error L C wording rest) (λ _. rest)
        (λ e u. note_error-NoError wording e rest u (delete_pods-NoError wording ps u))
        (λ a u. delete_pods-NoError wording ps u) (λ m. tt) w

  module _ (req : ObjectKey) (s : Service) where
    abbrev bare : Service
    bare = with_finalizers s (L.without s.finalizers finalizer_name)

    drop_finalizer-calls :
        (errors : List GoError) (w : World C)
        → (drop_finalizer L C req s errors w).1.calls ≡ w.calls ++ Call.update_service bare ∷ []
    unfolding drop_finalizer
    drop_finalizer-calls errors w =
        let I = λ (u : World C). u.calls ≡ w.calls ++ Call.update_service bare ∷ [] in
        let answer = C.update_service bare w.store in
        continue-keeps I answer.0 (perform (Call.update_service bare) (C.update_service bare) w).1 _
          _ (λ e. return_error-Keeps I _) (λ a. return_error-Keeps I _) refl

    clean_up-calls_from :
        (claimed : List Pod) (r : Result (List GoError)) (u w : World C)
        → NoError r
        → Returned (continue (r, u) fail (drop_finalizer L C req s)).0
        → ((es : List GoError) → r ≡ ok es → u.calls ≡ w.calls ++ map Call.delete_pod claimed)
        → (continue (r, u) fail (drop_finalizer L C req s)).1.calls
          ≡ w.calls ++ map Call.delete_pod claimed ++ Call.update_service bare ∷ []
    clean_up-calls_from claimed (ok es) u w n h k =
        drop_finalizer-calls es u ∙ ap (λ l. l ++ Call.update_service bare ∷ []) (k es refl)
    clean_up-calls_from claimed (err e) u w n h k = absurd n
    clean_up-calls_from claimed (panic m) u w n h k = absurd h

    -- When the clean up returns, with or without an error, it has asked for the deletion of every
    -- claimed pod, in order, and then for the service without its finalizer, also if deletions failed.
    pub clean_up-calls :
        (claimed : List Pod) (w : World C)
        → Returned (clean_up L C req s claimed w).0
        → (clean_up L C req s claimed w).1.calls
          ≡ w.calls ++ map Call.delete_pod claimed ++ Call.update_service bare ∷ []
    unfolding clean_up
    clean_up-calls claimed w h =
        let gone =
          delete_pods L C (errorf_w ("unable delete pod '" <> request_text req <> "', err: "))
            claimed in
        clean_up-calls_from claimed (gone w).0 (gone w).1 w (delete_pods-NoError _ claimed w) h
          (λ es e. delete_pods-calls _ claimed w (λ i. (e i, (gone w).1)))
