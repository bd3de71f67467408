-- ===== src/Services/Follow.antt =====
-- A listener to the service events (pkg/commons/services.go, `sendServiceEvent`).
use torq.Prelude.{
  ℕ, ◌≡◌, refl, ◌≢◌, inl, inr, Bool, true, false, not, ◌&&◌, Bool-cases, Option, none, some, List,
  [], ◌∷◌, ◌++◌, arith, sym, ap, subst, ◌∙◌, nat_eq, ◌==◌, if◌then◌else◌,
}
use torq.Prelude.Map.{Map, lookup, insert, lookup-insert}
use torq.Constants.{ServiceType, is_lnd_service, Status, status_eq, SubscriptionStream}
use torq.Services.Types.{stream_eq, Services, Effect, send, call}
use torq.Services.Operations.{
  status_of, status_or_zero, send_service_event, status_event, set_status, set_lnd_stream_statuses,
  set_stream_statuses,
}
use torq.Services.Merge.{status_eq_iff}

abbrev is_service_event : Option SubscriptionStream → Bool
is_service_event none = true
is_service_event (some ss) = false

-- A listener that follows the service status of one node. Its status after the events, none where
-- an event for the node does not start from the status that the listener has, or changes nothing.
unfoldable pub follow : ℕ → List Effect → Status → Option Status
follow n [] s = some s
follow n (call f ∷ l) s = follow n l s
follow n (send e ∷ l) s =
    let skip = follow n l s in
    let next = follow n l e.status in
    if e.node_id == n && is_service_event e.subscription_stream
    then (if status_eq e.previous_status s && not (status_eq e.status s) then next else none)
    else skip

-- The events of one call and then those of the rest.
pub follow-append :
    (n : ℕ) (l k : List Effect) (s t u : Status)
    → follow n l s ≡ some t
    → follow n k t ≡ some u
    → follow n (l ++ k) s ≡ some u
unfolding follow
follow-append n [] k s t u h g = let e : s ≡ t = cc in ap (follow n k) e ∙ g
follow-append n (call f ∷ l) k s t u h g = follow-append n l k s t u h g
follow-append n (send e ∷ l) k s t u h g =
    elim (Bool-cases (e.node_id == n && is_service_event e.subscription_stream)) [
      | inl here ↦ elim (Bool-cases (status_eq e.previous_status s && not (status_eq e.status s))) [
        | inl good ↦
            let rest : follow n l e.status ≡ some t = ground (arith, here, good, h) in
            let next = follow-append n l k e.status t u rest g in ground (arith, here, good, next)
        | inr bad ↦ ground (arith, here, bad, h)
      ]
      | inr elsewhere ↦
          let rest : follow n l s ≡ some t = ground (arith, elsewhere, h) in
          let next = follow-append n l k s t u rest g in ground (arith, elsewhere, next)
    ]

follow-own :
    (n now : ℕ) (p c : Status) (ty : ServiceType)
    → follow n (send_service_event true n now p c ty none) p ≡ some c
unfolding follow send_service_event
follow-own n now p c ty = elim (Bool-cases (status_eq p c)) [
  | inl same ↦ rw same (ap some ((status_eq_iff p c).0 same))
  | inr differ ↦ ground (arith, differ, status_eq_iff p p)
]

follow-else :
    (k n now : ℕ) (p c x : Status) (ty : ServiceType)
    → k ≢ n
    → follow k (send_service_event true n now p c ty none) x ≡ some x
unfolding follow send_service_event
follow-else k n now p c x ty ne = ground arith

pub follow-stream :
    (k n now : ℕ) (p c x : Status) (ty : ServiceType) (ss : SubscriptionStream)
    → follow k (send_service_event true n now p c ty (some ss)) x ≡ some x
unfolding follow send_service_event
follow-stream k n now p c x ty ss = ground arith

-- What a call has to show: its state differs at no other node, and its events are the change.
abbrev pub KeepsOthers : ℕ → Services → Services → Type 0
KeepsOthers n rs rs' = (k : ℕ) → k ≢ n → status_of k rs' ≡ status_of k rs

-- The event of a change at one node.
pub follow-status_event :
    (n now : ℕ) (rs rs' : Services)
    → KeepsOthers n rs rs'
    → (k : ℕ)
    → follow k (status_event true n now (status_of n rs) rs') (status_of k rs)
      ≡ some (status_of k rs')
follow-status_event n now rs rs' others k = elim (Bool-cases (k == n)) [
  | inl same ↦
      let e : n ≡ k = ground arith in
      subst
        (λ j.
          follow j (status_event true n now (status_of n rs) rs') (status_of j rs)
          ≡ some (status_of j rs'))
        e (follow-own n now (status_of n rs) (status_of n rs') rs'.service_type)
  | inr other ↦
      let ne : k ≢ n = ground arith in
      follow-else k n now (status_of n rs) (status_of n rs') (status_of k rs) rs'.service_type ne
      ∙ ap some (sym (others k ne))
]

chosen-service_status :
    (b : Bool) (x y : Services)
    → x.service_status ≡ y.service_status
    → (if b then x else y).service_status ≡ y.service_status
chosen-service_status true x y h = h
chosen-service_status false x y h = refl

pub set_lnd-service_status :
    (n : ℕ) (s : Status) (rs : Services)
    → (set_lnd_stream_statuses n s rs).service_status ≡ rs.service_status
set_lnd-service_status n s rs =
    chosen-service_status (is_lnd_service rs.service_type) (set_stream_statuses n s rs) rs refl

pub set_status-KeepsOthers :
    (n : ℕ) (s : Status) (m : Map ℕ Status) (k : ℕ)
    → k ≢ n
    → status_or_zero (lookup k (insert n s m)) ≡ status_or_zero (lookup k m)
set_status-KeepsOthers n s m k ne = ground (arith, lookup-insert n k s m)

-- The same, after the streams were reset.
pub set_both-KeepsOthers :
    (n : ℕ) (s t : Status) (rs : Services)
    → KeepsOthers n rs (set_lnd_stream_statuses n t (set_status n s rs))
set_both-KeepsOthers n s t rs k ne =
    ap (λ m. status_or_zero (lookup k m)) (set_lnd-service_status n t (set_status n s rs))
    ∙ set_status-KeepsOthers n s rs.service_status k ne
