-- ===== src/FrpServer/Admission.antt =====
-- Which frp servers the webhooks admit.
use frp_provisioner.Prelude.{
  String, Option, none, some, ◌≡◌, ◌↔◌, inl, inr, refl, ◌∙◌, ap, ◌&&◌, if◌then◌else◌, Bool-cases,
  arith,
}
use frp_provisioner.Prelude.Int.{ℤ, pos, le_int, ◌≤ℤ◌}
use frp_provisioner.Go.{join-some, note_if-none, GoError, ok, error_of, >>=-eq-ok}
use frp_provisioner.Kube.{Machinery, IsLawful, IsNone, Client, World}
use frp_provisioner.Api.{FrpServerSpec}
use frp_provisioner.FrpClient.{Host, validate_port, validate_frp_server_config}
use frp_provisioner.FrpServer.Status.{caught, none_caught}
use frp_provisioner.FrpServer.Webhook.{
  created_port_errors, updated_port_errors, create_errors, update_errors, admit, admit_login,
  validate_create, validate_update,
}
use frp_provisioner.FrpServer.Reflect.{le_int-positive, le_int-true}
use frp_provisioner.FrpServer.Fields.{IsWellFormed, field_errors-none}

module _ (L : Machinery) (lawful : IsLawful L) where
  abbrev pub IsPort : ℤ → Type 0
  IsPort port = (pos 0 ≤ℤ port) × (port ≤ℤ pos 65535)

  created_port_errors-IsPort :
      (decimal : ℤ → String) (port : ℤ) (Q : Type 0) (errs : Option GoError)
      → (errs ≡ none) ↔ Q
      → (created_port_errors L (validate_port decimal port) errs ≡ none) ↔ (Q × IsPort port)
  unfolding validate_port created_port_errors
  created_port_errors-IsPort decimal port Q errs q =
      let (f, g) = le_int-true (pos 0) port in
      let (k, m) = le_int-true port (pos 65535) in
      elim (Bool-cases (le_int (pos 0) port && le_int port (pos 65535))) [
        | inl good ↦ (
          (λ h. (q.0 (rw (good, if◌then◌else◌) at h), (f (ground arith), k (ground arith)))),
          λ (y, _). rw (good, if◌then◌else◌) (q.1 y),
        )
        | inr bad ↦ (
          (λ h. absurd (join-some errs _ (rw (bad, if◌then◌else◌) at h))),
          λ (y, (a, b)). absurd (ground (arith, g a, m b)),
        )
      ]

  create_errors-none :
      (decimal : ℤ → String) (s : FrpServerSpec)
      → (create_errors L decimal s ≡ none) ↔ (IsWellFormed s × IsPort s.server_port)
  unfolding create_errors
  create_errors-none decimal s =
      field_errors-none L lawful _ (created_port_errors-IsPort decimal s.server_port) s

  update_errors-none :
      (s : FrpServerSpec) → (update_errors L s ≡ none) ↔ (IsWellFormed s × (pos 1 ≤ℤ s.server_port))
  unfolding update_errors updated_port_errors
  update_errors-none s =
      field_errors-none L lawful (updated_port_errors L s.server_port)
        (λ Q errs q.
          note_if-none _ "field spec.serverPort should not be empty" errs
            (le_int-positive s.server_port) q)
        s

  module _ (C : Client) (H : Host C.State) (s : FrpServerSpec) (w w' : World C) where
    -- The answer of the login check ends the admission.
    passed :
        (o : Option GoError) (u : World C)
        → admit_login L C H o u ≡ (ok tt, w')
        → IsNone o × (u ≡ w')
    unfolding admit_login
    passed none u h = (refl, ap (λ x. x.1) h)
    passed (some e) u h = absurd (cc)

    admit-eq-ok :
        (e : Option GoError)
        → (admit L C H s e w ≡ (ok tt, w'))
          ↔ ((e ≡ none) × (validate_frp_server_config C H s w ≡ (ok tt, w')))
    unfolding admit admit_login
    admit-eq-ok none =
        let login = validate_frp_server_config C H s in
        (
          (λ h.
              let (o, u, p, q) = >>=-eq-ok (error_of login) (admit_login L C H) w h in
              let (fine, last) = passed o u q in
              let (_, good) = none_caught (login w).0 (login w).1 p fine in
              let same = caught (login w).0 (login w).1 p ∙ last in (refl, λ i. (good i, same i))),
          λ (_, h). rw h refl,
        )
    admit-eq-ok (some e) = ((λ h. absurd (cc)), λ (h, _). absurd (cc))

-- ValidateCreate admits an object just if its fields are well formed, its port is one of 0 to 65535,
-- and the login with its configuration succeeds.
pub validate_create-admits :
    (L : Machinery) (lawful : IsLawful L) (C : Client) (H : Host C.State) (decimal : ℤ → String)
    (s : FrpServerSpec) (w w' : World C)
    → (validate_create L C H decimal s w ≡ (ok tt, w')) ↔ (
        (IsWellFormed s × IsPort L lawful s.server_port)
        × (validate_frp_server_config C H s w ≡ (ok tt, w')))
unfolding validate_create
validate_create-admits L lawful C H decimal s w w' =
    let (f, g) = admit-eq-ok L lawful C H s w w' (create_errors L decimal s) in
    let (k, m) = create_errors-none L lawful decimal s in
    ((λ h. let (e, login) = f h in (k e, login)), λ (fields, login). g (m fields, login))

-- ValidateUpdate admits an object just if its fields are well formed, its port is at least 1, with no
-- upper bound, and the login with its configuration succeeds.
pub validate_update-admits :
    (L : Machinery) (lawful : IsLawful L) (C : Client) (H : Host C.State) (s : FrpServerSpec)
    (w w' : World C)
    → (validate_update L C H s w ≡ (ok tt, w')) ↔ (
        (IsWellFormed s × (pos 1 ≤ℤ s.server_port))
        × (validate_frp_server_config C H s w ≡ (ok tt, w')))
unfolding validate_update
validate_update-admits L lawful C H s w w' =
    let (f, g) = admit-eq-ok L lawful C H s w w' (update_errors L s) in
    let (k, m) = update_errors-none L lawful s in
    ((λ h. let (e, login) = f h in (k e, login)), λ (fields, login). g (m fields, login))
