-- ===== src/FrpServer/Fields.antt =====
-- When nothing is wrong with the fields that the webhooks check, all but the port.
use frp_provisioner.Prelude.{
  String, true, false, [], Option, none, some, ◌==◌, ◌≡◌, ◌≢◌, ◌⊎◌, ◌↔◌, inl, inr, refl, ◌&&◌, not,
  if◌then◌else◌, All, Bool-cases, arith, eq_iff,
}
use frp_provisioner.Prelude.Int.{pos, lt_int, ◌≤ℤ◌}
use frp_provisioner.Go.{note_if-none, differs, is_empty-false, GoError}
use frp_provisioner.Kube.{SecretReference, Machinery, IsLawful}
use frp_provisioner.Api.{
  FrpServerAuth, FrpServerTransport, FrpServerSpec, auth_methods, auth_scopes, auth_method_token,
  transport_protocols,
}
use frp_provisioner.FrpServer.Webhook.{auth_errors, heartbeat_errors, tls_errors, field_errors}
use frp_provisioner.FrpServer.Reflect.{
  IsOneOf, lt_int-false, both-false, not_contains-false, not_every-false,
}

-- A known method, known scopes, and a token if the method wants one.
abbrev pub IsAuth : FrpServerAuth → Type 0
IsAuth a =
    IsOneOf a.method auth_methods
    × All (λ scope. IsOneOf scope auth_scopes) a.additional_scopes
    × ((a.method ≢ auth_method_token) ⊎ (a.token ≢ ""))

-- A heartbeat is off, or answered within an interval at the earliest.
abbrev pub IsPaced : FrpServerTransport → Type 0
IsPaced t =
    (t.heartbeat_timeout ≤ℤ pos 0)
    ⊎ (t.heartbeat_interval ≤ℤ pos 0)
    ⊎ (t.heartbeat_interval ≤ℤ t.heartbeat_timeout)

-- A secret with both its names or none of them, and with it a known protocol.
abbrev pub IsSecured : String → Option SecretReference → Type 0
IsSecured protocol none = Unit
IsSecured protocol (some ref) =
    ((ref.name ≡ "") ⊎ (ref.namespace ≢ ""))
    × ((ref.name ≢ "") ⊎ (ref.namespace ≡ ""))
    × IsOneOf protocol transport_protocols

abbrev pub IsWellFormed : FrpServerSpec → Type 0
IsWellFormed s =
    IsAuth s.auth
    × (s.server_addr ≢ "")
    × (s.external_ips ≢ [])
    × IsPaced s.transport
    × IsSecured s.transport.protocol s.transport.tls.secret_ref

abbrev iff_refl : {P : Type 0} → P ↔ P
iff_refl = ((λ p. p), λ p. p)

module _ (L : Machinery) (lawful : IsLawful L) where
  auth_errors-none : (a : FrpServerAuth) → (auth_errors L a none ≡ none) ↔ IsAuth a
  unfolding auth_errors
  auth_errors-none a =
      let (f, g) = note_if-none _ _ _ (both-false a.method auth_method_token a.token "") (
        note_if-none _ _ _ (not_every-false L lawful auth_scopes a.additional_scopes)
          (note_if-none _ _ none (not_contains-false L lawful auth_methods a.method) iff_refl)) in
      ((λ h. let (((_, m), s), t) = f h in (m, s, t)), λ (m, s, t). g (((refl, m), s), t))

  heartbeat_errors-none :
      {Q : Type 0} (t : FrpServerTransport) (errs : Option GoError)
      → (errs ≡ none) ↔ Q
      → (heartbeat_errors L t errs ≡ none) ↔ (Q × IsPaced t)
  unfolding heartbeat_errors
  heartbeat_errors-none t errs q = elim (Bool-cases (lt_int (pos 0) t.heartbeat_timeout)) [
    | inl on ↦ elim (Bool-cases (lt_int (pos 0) t.heartbeat_interval)) [
      | inl beating ↦
          let (f, g) =
            note_if-none (lt_int t.heartbeat_timeout t.heartbeat_interval) _ errs
              (lt_int-false t.heartbeat_timeout t.heartbeat_interval) q in
          (
            (λ h. let (y, x) = f (rw (on, beating, if◌then◌else◌) at h) in (y, inr (inr x))),
            λ (y, x). rw (on, beating, if◌then◌else◌) (g (y, paced on beating x)),
          )
      | inr off ↦ (
        (λ h. (
          q.0 (rw (on, off, if◌then◌else◌) at h),
          inr (inl ((lt_int-false (pos 0) t.heartbeat_interval).0 off)),
        )),
        λ (y, x). rw (on, off, if◌then◌else◌) (q.1 y),
      )
    ]
    | inr off ↦ (
      (λ h. (
        q.0 (rw (off, if◌then◌else◌) at h),
        inl ((lt_int-false (pos 0) t.heartbeat_timeout).0 off),
      )),
      λ (y, x). rw (off, if◌then◌else◌) (q.1 y),
    )
  ]
    where
      paced :
          lt_int (pos 0) t.heartbeat_timeout ≡ true
          → lt_int (pos 0) t.heartbeat_interval ≡ true
          → IsPaced t
          → t.heartbeat_interval ≤ℤ t.heartbeat_timeout
      paced on beating (inl h) =
          absurd (ground (arith, (lt_int-false (pos 0) t.heartbeat_timeout).1 h))
      paced on beating (inr (inl h)) =
          absurd (ground (arith, (lt_int-false (pos 0) t.heartbeat_interval).1 h))
      paced on beating (inr (inr h)) = h

  named_first : (a b : String) → ((not (a == "") && (b == "")) ≡ false) ↔ ((a ≡ "") ⊎ (b ≢ ""))
  named_first a b = elim (Bool-cases (a == "")) [
    | inl empty ↦ ((λ h. inl ((eq_iff a "").0 empty)), λ s. rw (empty) refl)
    | inr full ↦ (
      (λ h. inr ((differs b "").0 (ground arith))),
      λ s. elim s [
        | inl e ↦ absurd ((differs a "").0 full e)
        | inr n ↦ rw (full) ((differs b "").1 n)
      ],
    )
  ]

  named_last : (a b : String) → (((a == "") && not (b == "")) ≡ false) ↔ ((a ≢ "") ⊎ (b ≡ ""))
  named_last a b = elim (Bool-cases (a == "")) [
    | inl empty ↦ (
      (λ h. inr ((eq_iff b "").0 (ground arith))),
      λ s. elim s [
        | inl n ↦ absurd (n ((eq_iff a "").0 empty))
        | inr e ↦ rw (empty, (eq_iff b "").1 e) refl
      ],
    )
    | inr full ↦ ((λ h. inl ((differs a "").0 full)), λ s. rw (full) refl)
  ]

  tls_errors-none :
      {Q : Type 0} (protocol : String) (ref : Option SecretReference) (errs : Option GoError)
      → (errs ≡ none) ↔ Q
      → (tls_errors L protocol ref errs ≡ none) ↔ (Q × IsSecured protocol ref)
  unfolding tls_errors
  tls_errors-none protocol none errs q = ((λ h. (q.0 h, tt)), λ (y, _). q.1 y)
  tls_errors-none protocol (some ref) errs q =
      let (f, g) = note_if-none _ _ _ (not_contains-false L lawful transport_protocols protocol) (
        note_if-none _ _ _ (named_last ref.name ref.namespace)
          (note_if-none _ _ errs (named_first ref.name ref.namespace) q)) in
      ((λ h. let (((y, a), b), c) = f h in (y, (a, b, c))), λ (y, (a, b, c)). g (((y, a), b), c))

  -- All that is checked but the port.
  pub field_errors-none :
      {P : Type 0} (port_errors : Option GoError → Option GoError)
      → ((Q : Type 0) (errs : Option GoError)
          → (errs ≡ none) ↔ Q
          → (port_errors errs ≡ none) ↔ (Q × P))
      → (s : FrpServerSpec) → (field_errors L port_errors s ≡ none) ↔ (IsWellFormed s × P)
  unfolding field_errors
  field_errors-none port_errors ports s =
      let (f, g) = tls_errors-none s.transport.protocol s.transport.tls.secret_ref _ (
        heartbeat_errors-none s.transport _ (
          note_if-none _ _ _ (is_empty-false s.external_ips) (
            ports _ _
              (note_if-none _ _ _ (differs s.server_addr "") (auth_errors-none s.auth))))) in
      (
        (λ h. let (((((a, b), p), c), d), e) = f h in ((a, b, c, d, e), p)),
        λ ((a, b, c, d, e), p). g (((((a, b), p), c), d), e),
      )
