-- ===== src/Service/Listing.antt =====
-- pkg/controller/service_controller.go: how getOwnedPods splits what it lists, and scheduleServer and
-- getFrpServers, which look up frp servers; IsFrpServerActive of pkg/utils/controller/controller.go.
use mathlib.Core.Path.{subst}
use frp_provisioner.Prelude.{
  String, ◌<>◌, Bool, true, false, not, ◌&&◌, List, [], ◌∷◌, Option, none, some, ◌==◌, ◌≡◌, is_some,
  is_empty, if◌then◌else◌, inl, inr, Bool-cases, ap, ◌∙◌, ◌≢◌, ◌↔◌, refl, arith, eq_iff,
}
use frp_provisioner.Go.{differs, Result, ok, lookup, text, M, pure, fail, ◌>>=◌, >>=-eq-ok}
use frp_provisioner.Kube.{ObjectKey, Pod, Service, Machinery, Client, Call, World, perform}
use frp_provisioner.Api.{FrpServer, phase_healthy, annotation_frp_server_name_key}
use frp_provisioner.Service.Defs.{is_pod_active, selector_of, split_pods, get_owned_pods}

unfoldable pub is_frp_server_active : FrpServer → Bool
is_frp_server_active i = (i.status.phase == phase_healthy) && not (is_some i.deletion_timestamp)

abbrev please_set : String
please_set = "please set annotations." <> annotation_frp_server_name_key <> " to assign frp server"

-- The loop of getFrpServers: active and inactive servers, in order.
unfoldable pub split_servers : List FrpServer → List FrpServer × List FrpServer
unfolding is_frp_server_active
split_servers [] = ([], [])
split_servers (s ∷ ss) =
    let (active, inactive) = split_servers ss in
    if is_frp_server_active s then (s ∷ active, inactive) else (active, s ∷ inactive)

module _ (C : Client) where
  -- Servers have no namespace.
  unfoldable pub named_server : Option String → M (World C) FrpServer
  named_server none = fail (text please_set)
  named_server (some name) =
      let key : ObjectKey = record { namespace = ""; name = name } in
      if name == ""
      then fail (text please_set)
      else perform (Call.get_frp_server key) (C.get_frp_server key)

  unfoldable pub schedule_server : Service → M (World C) FrpServer
  unfolding named_server lookup
  schedule_server s =
      if is_empty s.annotations
      then fail (text please_set)
      else named_server (lookup annotation_frp_server_name_key s.annotations)

  unfoldable pub get_frp_servers : M (World C) (List FrpServer × List FrpServer)
  unfolding split_servers
  get_frp_servers =
      perform Call.list_frp_servers C.list_frp_servers >>= λ servers. pure (split_servers servers)

-- The list is a merge of those with a property and those without it, each in order.
pub data IsSplit {A : Type 0} (P : A → Type 0) : List A → List A → List A → Type 0 where
  done : IsSplit P [] [] []
  has : {x : A} {xs ls rs : List A} → P x → IsSplit P xs ls rs → IsSplit P (x ∷ xs) (x ∷ ls) rs
  lacks : {x : A} {xs ls rs : List A} → ¬ P x → IsSplit P xs ls rs → IsSplit P (x ∷ xs) ls (x ∷ rs)

-- A pod that has not ended, and is not being deleted.
abbrev pub IsActivePod : Pod → Type 0
IsActivePod p = (p.phase ≢ "Succeeded") × (p.phase ≢ "Failed") × (p.deletion_timestamp ≡ none)

-- A server that is healthy, and is not being deleted.
abbrev pub IsActiveServer : FrpServer → Type 0
IsActiveServer s = (s.status.phase ≡ "Healthy") × (s.deletion_timestamp ≡ none)

is_some-false : {A : Type 0} (o : Option A) → is_some o ≡ false → o ≡ none
is_some-false none h = refl
is_some-false (some a) h = absurd (cc)

is_pod_active-IsActivePod : (p : Pod) → (is_pod_active p ≡ true) ↔ IsActivePod p
unfolding is_pod_active
is_pod_active-IsActivePod p = (
  (λ h. (
    (differs p.phase "Succeeded").0 (ground (arith, h)),
    (differs p.phase "Failed").0 (ground (arith, h)),
    is_some-false p.deletion_timestamp (ground (arith, h)),
  )),
  λ (a, b, c).
      let x = (differs p.phase "Succeeded").1 a in
      let y = (differs p.phase "Failed").1 b in rw (x, y, c) refl,
)

is_frp_server_active-IsActiveServer :
    (s : FrpServer) → (is_frp_server_active s ≡ true) ↔ IsActiveServer s
unfolding is_frp_server_active
is_frp_server_active-IsActiveServer s = (
  (λ h. (
    (eq_iff s.status.phase "Healthy").0 (ground (arith, h)),
    is_some-false s.deletion_timestamp (ground (arith, h)),
  )),
  λ (a, c). rw ((eq_iff s.status.phase "Healthy").1 a, c) refl,
)

split_pods-IsSplit : (ps : List Pod) → IsSplit IsActivePod ps (split_pods ps).0 (split_pods ps).1
unfolding split_pods
split_pods-IsSplit [] = done
split_pods-IsSplit (p ∷ ps) = elim (Bool-cases (is_pod_active p)) [
  | inl active ↦
      rw (active, if◌then◌else◌)
        (has ((is_pod_active-IsActivePod p).0 active) (split_pods-IsSplit ps))
  | inr inactive ↦
      rw (inactive, if◌then◌else◌)
        (lacks (λ h. let active = (is_pod_active-IsActivePod p).1 h in absurd (cc))
          (split_pods-IsSplit ps))
]

split_servers-IsSplit :
    (ss : List FrpServer) → IsSplit IsActiveServer ss (split_servers ss).0 (split_servers ss).1
unfolding split_servers
split_servers-IsSplit [] = done
split_servers-IsSplit (s ∷ ss) = elim (Bool-cases (is_frp_server_active s)) [
  | inl active ↦
      rw (active, if◌then◌else◌)
        (has ((is_frp_server_active-IsActiveServer s).0 active) (split_servers-IsSplit ss))
  | inr inactive ↦
      rw (inactive, if◌then◌else◌)
        (lacks (λ h. let active = (is_frp_server_active-IsActiveServer s).1 h in absurd (cc))
          (split_servers-IsSplit ss))
]

-- What a successful call returns.
value : {A : Type 0} → A → Result A → A
value d (ok a) = a
value d _ = d

-- A list that is split on its way out.
divided :
    {S A : Type 0} (P : A → Type 0) (split : List A → List A × List A) (call : M S (List A))
    (s t : S) (ls rs : List A)
    → ((xs : List A) → IsSplit P xs (split xs).0 (split xs).1)
    → (call >>= λ xs. pure (split xs)) s ≡ (ok (ls, rs), t)
    → (xs : List A) × (call s ≡ (ok xs, t)) × IsSplit P xs ls rs
unfolding value
divided P split call s t ls rs good h =
    let (xs, u, p, q) = >>=-eq-ok call (λ xs. pure (split xs)) s h in
    let same : u ≡ t = ap (λ x. x.1) q in
    let parts : split xs ≡ (ls, rs) = ap (λ x. value ([], []) x.0) q in
    (xs, p ∙ (λ i. (ok xs, same i)), subst (λ x. IsSplit P xs x.0 x.1) parts (good xs))

-- If getOwnedPods succeeds then the API server listed pods of the namespace of the service whose labels
-- have its name and its uid, and each of these is returned once, in order: first those with a phase that is
-- neither "Succeeded" nor "Failed" and with no deletion timestamp, and second the others.
pub get_owned_pods-eq-ok :
    (L : Machinery) (C : Client) (s : Service) (w w' : World C) (active inactive : List Pod)
    → get_owned_pods L C s w ≡ (ok (active, inactive), w')
    → (ps : List Pod) × (C.list_pods s.namespace
          (("gofrp.io/service-name", s.name) ∷ ("gofrp.io/controller-uid", s.uid) ∷ [])
          w.store
        ≡ (ok ps, w'.store))
      × IsSplit IsActivePod ps active inactive
unfolding get_owned_pods
get_owned_pods-eq-ok L C s w w' active inactive h =
    let list = C.list_pods s.namespace (selector_of s) in
    let call = perform {C = C} (Call.list_pods s.namespace (selector_of s)) list in
    let (ps, lists, split) =
      divided IsActivePod split_pods call w w' active inactive split_pods-IsSplit h in
    (ps, ap (λ x. (x.0, x.1.store)) lists, split)

-- If getFrpServers succeeds then each listed server is returned once, in order: first those with the
-- phase "Healthy" and no deletion timestamp, and second the others.
pub get_frp_servers-eq-ok :
    (C : Client) (w w' : World C) (active inactive : List FrpServer)
    → get_frp_servers C w ≡ (ok (active, inactive), w')
    → (ss : List FrpServer) × (C.list_frp_servers w.store ≡ (ok ss, w'.store))
      × IsSplit IsActiveServer ss active inactive
unfolding get_frp_servers
get_frp_servers-eq-ok C w w' active inactive h =
    let call = perform {C = C} Call.list_frp_servers C.list_frp_servers in
    let (ss, lists, split) =
      divided IsActiveServer split_servers call w w' active inactive split_servers-IsSplit h in
    (ss, ap (λ x. (x.0, x.1.store)) lists, split)
