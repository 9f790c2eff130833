-- ===== src/FrpServer/Status.antt =====
-- What a reconciliation of an frp server publishes, and when it is an error.
use mathlib.Core.Path.{subst}
use frp_provisioner.Prelude.{
  String, ◌<>◌, Bool, true, false, [], ◌∷◌, ◌++◌, Option, none, some, ◌==◌, ◌≡◌, ◌≢◌, ◌⊎◌, inl, inr,
  refl, sym, ◌∙◌, ap, arith, Bool-cases, eq_iff, if◌then◌else◌,
}
use frp_provisioner.Go.{
  GoError, error_text, Result, ok, err, panic, continue, error_of, return_error, pure, fail,
  >>=-eq-ok, handle-eq-ok, return_error-eq-ok, differs,
}
use frp_provisioner.Kube.{
  ObjectKey, Condition, find_condition, Machinery, IsLawful, IsNone, Client, Call, World, perform,
}
use frp_provisioner.Api.{FrpServer}
use frp_provisioner.FrpClient.{
  Host, secret_calls, validate_frp_server_config, validate_frp_server_config-gives_back,
}
use frp_provisioner.FrpServer.Defs.{
  with_status, healthy_status, unhealthy_status, publish, report, inspect, reconcile_frp_server,
}

-- Catching the error changes no state.
pub caught :
    {S A : Type 0} (r : Result A) (u : S) {o : Option GoError} {v : S}
    → continue (r, u) (λ e. pure (some e)) (λ _. pure none) ≡ (ok o, v)
    → u ≡ v
caught (ok a) u h = ap (λ x. x.1) h
caught (err e) u h = ap (λ x. x.1) h
caught (panic m) u h = absurd (cc)

-- No error was caught, so the call succeeded.
pub none_caught :
    {S A : Type 0} (r : Result A) (u : S) {o : Option GoError} {v : S}
    → continue (r, u) (λ e. pure (some e)) (λ _. pure none) ≡ (ok o, v)
    → o ≡ none
    → (a : A) × (r ≡ ok a)
none_caught (ok a) u h n = (a, refl)
none_caught (err e) u h n = absurd (cc)
none_caught (panic m) u h n = absurd (cc)

pub returned : {S : Type 0} (e : Option GoError) (s t : S) → return_error e s ≡ (ok tt, t) → s ≡ t
returned none s t h = ap (λ x. x.1) h
returned (some e) s t h = absurd (cc)

-- The object with another status: the phase and the reason, the condition "Initialized", which is true,
-- with the same message, and the services as before.
abbrev pub Reports : (phase message reason : String) (obj f : FrpServer) → Type 0
Reports phase message reason obj f =
    (f.metadata ≡ obj.metadata)
    × (f.spec ≡ obj.spec)
    × (f.status.phase ≡ phase)
    × (f.status.reason ≡ message)
    × (f.status.service_references ≡ obj.status.service_references)
    × ((d : Condition) × (find_condition "Initialized" f.status.conditions ≡ some d)
        × (d.status ≡ "True")
        × (d.reason ≡ reason)
        × (d.message ≡ message))

-- The object with the phase "Pending", and otherwise as before.
abbrev pub IsPending : (obj f : FrpServer) → Type 0
IsPending obj f =
    (f.metadata ≡ obj.metadata)
    × (f.spec ≡ obj.spec)
    × (f.status.phase ≡ "Pending")
    × (f.status.reason ≡ obj.status.reason)
    × (f.status.conditions ≡ obj.status.conditions)
    × (f.status.service_references ≡ obj.status.service_references)

module _ (L : Machinery) (lawful : IsLawful L) (obj : FrpServer) (time : String) where
  healthy_status-Reports :
      Reports "Healthy" "FrpServer is healthy" "Initialized" obj
        (with_status obj (healthy_status L obj.status time))
  unfolding healthy_status
  healthy_status-Reports =
      (refl, refl, refl, refl, refl, lawful.condition_set obj.status.conditions _)

  unhealthy_status-Reports :
      (e : GoError)
      → Reports "Unhealthy"
          ("Invalid frp config: " <> error_text e)
          "InitializeFailed"
          obj
          (with_status obj (unhealthy_status L obj.status e time))
  unfolding unhealthy_status
  unhealthy_status-Reports e =
      (refl, refl, refl, refl, refl, lawful.condition_set obj.status.conditions _)

module _ (L : Machinery) (C : Client) (lawful : IsLawful L) where
  -- The object was the last request, and the server stored it.
  abbrev pub Stores : FrpServer → World C → World C → Type 0
  Stores f w w' =
      ((a : FrpServer) × (C.update_status f w.store ≡ (ok a, w'.store)))
      × (w'.calls ≡ w.calls ++ Call.update_status f ∷ [])

  -- A status that is published without an error was stored, and there was no other error.
  publish-eq-ok :
      (e : Option GoError) (obj : FrpServer) (w w' : World C)
      → publish L C e obj w ≡ (ok tt, w')
      → IsNone e × Stores obj w w'
  unfolding publish
  publish-eq-ok e obj w w' h =
      let call = perform {C = C} (Call.update_status obj) (C.update_status obj) in
      let (u, v, p, q) =
        >>=-eq-ok (error_of call) (λ u. return_error (L.new_aggregate (e ∷ u ∷ []))) w h in
      let all =
        lawful.new_aggregate_all _ (return_error-eq-ok (L.new_aggregate (e ∷ u ∷ [])) v w' q) in
      let same : (call w).1 ≡ w' = caught (call w).0 (call w).1 p ∙ returned _ v w' q in
      let (a, good) = none_caught (call w).0 (call w).1 p all.1.0 in
      (all.0, ((a, λ i. (good i, (same i).store)), ap (λ (x : World C). x.calls) (sym same)))

  module _ (H : Host C.State) (obj : FrpServer) where
    report-eq-ok :
        (e : Option GoError) (w w' : World C)
        → report L C H obj e w ≡ (ok tt, w')
        → IsNone e × Stores (with_status obj (healthy_status L obj.status (H.now w.store))) w w'
    unfolding report
    report-eq-ok (some e) w w' h =
        let (none_left, _) = publish-eq-ok (some e) _ w w' h in absurd (cc)
    report-eq-ok none w w' h = publish-eq-ok none _ w w' h

    -- A visit without an error: the phase was unknown, and became pending; or the login succeeded.
    abbrev pub Settled : World C → World C → Type 0
    Settled w w' =
        ((obj.status.phase ≡ "Unknown") × ((f : FrpServer) × IsPending obj f × Stores f w w'))
        ⊎ ((obj.status.phase ≢ "Unknown")
            × ((u : World C) × (validate_frp_server_config C H obj.spec w ≡ (ok tt, u))
                × (u.calls ≡ w.calls ++ secret_calls obj.spec.transport.tls.secret_ref)
                × ((f : FrpServer) × Reports "Healthy" "FrpServer is healthy" "Initialized" obj f
                    × Stores f u w')))

    inspect-Settled : (w w' : World C) → inspect L C H obj w ≡ (ok tt, w') → Settled w w'
    unfolding inspect
    inspect-Settled w w' h = elim (Bool-cases (obj.status.phase == "Unknown")) [
      | inl unknown ↦ inl (
        (eq_iff obj.status.phase "Unknown").0 unknown,
        (
          _,
          (refl, refl, refl, refl, refl, refl),
          (publish-eq-ok none _ w w' (rw (unknown, if◌then◌else◌) at h)).1,
        ),
      )
      | inr known ↦
          let login = validate_frp_server_config C H obj.spec in
          let (e, u, p, q) =
            >>=-eq-ok (error_of login) (report L C H obj) w (rw (known, if◌then◌else◌) at h) in
          let (success, stored) = report-eq-ok e u w' q in
          let (_, good) = none_caught (login w).0 (login w).1 p success in
          let same : (login w).1 ≡ u = caught (login w).0 (login w).1 p in
          let (asked, _, _, _) = validate_frp_server_config-gives_back C H obj.spec w in
          inr (
            λ unknown. absurd (ground (arith, (eq_iff obj.status.phase "Unknown").1 unknown)),
            (
              u,
              (λ i. (good i, same i)),
              ap (λ (x : World C). x.calls) (sym same) ∙ asked,
              (_, healthy_status-Reports L lawful obj (H.now u.store), stored),
            ),
          )
    ]

    -- What follows from the answer to the update: the error of the login and that of the update, if
    -- there is one, are returned as one, and a panic goes on.
    abbrev pub Follows : GoError → Result FrpServer → Result (Unit {0}) → Type 0
    Follows e (ok _) r =
        (x : GoError) × (L.new_aggregate (some e ∷ none ∷ []) ≡ some x) × (r ≡ err x)
    Follows e (err y) r =
        (x : GoError) × (L.new_aggregate (some e ∷ some y ∷ []) ≡ some x) × (r ≡ err x)
    Follows e (panic m) r = r ≡ panic m

    -- An error that is not nil makes the aggregate one.
    aggregated :
        (e : GoError) (u r : Option GoError) (w : World C)
        → L.new_aggregate (some e ∷ u ∷ []) ≡ r
        → (x : GoError) × (r ≡ some x) × ((return_error r w).0 ≡ err x)
    aggregated e u none w h =
        let all = lawful.new_aggregate_all (some e ∷ u ∷ []) h in
        let never : some e ≡ none = all.0 in absurd (cc)
    aggregated e u (some x) w h = (x, refl, refl)

    return_error-state : (o : Option GoError) (u : World C) → (return_error o u).1 ≡ u
    return_error-state none u = refl
    return_error-state (some e) u = refl

    -- The update is made, and then its error and the one before it are returned.
    published :
        (e : GoError) (r : Result FrpServer) (u : World C)
        → Follows e r
            (continue
              (continue (r, u) (λ e. pure (some e)) (λ _. pure none))
              fail
              (λ x. return_error (L.new_aggregate (some e ∷ x ∷ [])))).0
          × ((continue
                (continue (r, u) (λ e. pure (some e)) (λ _. pure none))
                fail
                (λ x. return_error (L.new_aggregate (some e ∷ x ∷ [])))).1
              ≡ u)
    published e (ok a) u = (aggregated e none _ u refl, return_error-state _ u)
    published e (err x) u = (aggregated e (some x) _ u refl, return_error-state _ u)
    published e (panic m) u = (refl, refl)

    inspected :
        (e : GoError) (w u : World C)
        → (obj.status.phase == "Unknown") ≡ false
        → validate_frp_server_config C H obj.spec w ≡ (err e, u)
        → inspect L C H obj w
          ≡ publish L C
              (some e)
              (with_status obj (unhealthy_status L obj.status e (H.now u.store)))
              u
    unfolding inspect report
    inspected e w u known h = rw (known, if◌then◌else◌, h)

-- If a reconciliation of an frp server succeeds, then the object could not be read; or its phase was
-- "Unknown", there was no login, and the server stored the object with the phase "Pending" and no other
-- change; or it had another phase, the login succeeded, for which only the secret of the object was
-- asked for, and the server then stored the object with the phase "Healthy", the reason "FrpServer is
-- healthy" and the condition "Initialized", which is true, with the reason "Initialized" and the same text.
pub reconcile_frp_server-eq-ok :
    (L : Machinery) (C : Client) (lawful : IsLawful L) (H : Host C.State) (key : ObjectKey)
    (w w' : World C)
    → reconcile_frp_server L C H key w ≡ (ok tt, w')
    → ((e : GoError) × (perform {C = C} (Call.get_frp_server key) (C.get_frp_server key) w
          ≡ (err e, w')))
      ⊎ ((obj : FrpServer) × (u : World C) × (perform {C = C}
              (Call.get_frp_server key)
              (C.get_frp_server key)
              w
            ≡ (ok obj, u))
          × Settled L C lawful H obj u w')
unfolding reconcile_frp_server
reconcile_frp_server-eq-ok L C lawful H key w w' h =
    let call = perform {C = C} (Call.get_frp_server key) (C.get_frp_server key) in
    elim (handle-eq-ok call (λ e. if L.is_not_found e then pure tt else pure tt) (inspect L C H) w
      h) [
        | inl (obj, u, p, q) ↦ inr (obj, u, p, inspect-Settled L C lawful H obj u w' q)
        | inr (e, u, p, q) ↦ inl (e, p ∙ (λ i. (err e, dropped (L.is_not_found e) u q i)))
      ]
  where
    dropped : (b : Bool) (u : World C) → (if b then pure tt else pure tt) u ≡ (ok tt, w') → u ≡ w'
    dropped true u q = ap (λ x. x.1) q
    dropped false u q = ap (λ x. x.1) q

-- Behind the read of the object: if its phase is not "Unknown" and the login fails with an error, then
-- the object is sent, as the last request, with the phase "Unhealthy", the text of the error behind
-- "Invalid frp config: " as its reason, and the condition "Initialized", which is true, with the reason
-- "InitializeFailed" and the same text; and the reconciliation ends with the aggregate of this error and
-- that of the update, if there is one, or with the panic of the update.
pub inspect-Follows :
    (L : Machinery) (C : Client) (lawful : IsLawful L) (H : Host C.State) (obj : FrpServer)
    (e : GoError) (w u : World C)
    → obj.status.phase ≢ "Unknown"
    → validate_frp_server_config C H obj.spec w ≡ (err e, u)
    → (f : FrpServer) × Reports "Unhealthy"
        ("Invalid frp config: " <> error_text e)
        "InitializeFailed"
        obj
        f
      × Follows L C lawful H obj e (C.update_status f u.store).0 (inspect L C H obj w).0
      × ((inspect L C H obj w).1.calls
          ≡ (w.calls ++ secret_calls obj.spec.transport.tls.secret_ref)
            ++ Call.update_status f ∷ [])
unfolding publish
inspect-Follows L C lawful H obj e w u known h =
    let f = with_status obj (unhealthy_status L obj.status e (H.now u.store)) in
    let call = perform {C = C} (Call.update_status f) (C.update_status f) in
    let (bad, same) = published L C lawful H obj e (call u).0 (call u).1 in
    let (asked, _, _, _) = validate_frp_server_config-gives_back C H obj.spec w in
    let step = inspected L C lawful H obj e w u ((differs obj.status.phase "Unknown").1 known) h in
    let before : u.calls ≡ w.calls ++ secret_calls obj.spec.transport.tls.secret_ref =
      sym (ap (λ (x : Result (Unit {0}) × World C). x.1.calls) h) ∙ asked in
    (
      f,
      unhealthy_status-Reports L lawful obj (H.now u.store) e,
      subst
          (λ (x : Result (Unit {0}) × World C).
            Follows L C lawful H obj e (C.update_status f u.store).0 x.0)
          (sym step) bad,
      ap (λ (x : Result (Unit {0}) × World C). x.1.calls) step
          ∙ ap (λ (x : World C). x.calls) same
          ∙ ap (λ l. l ++ Call.update_status f ∷ []) before,
    )
