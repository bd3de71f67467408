-- ===== src/Services/Activation.antt =====
-- The changes that make nothing active (pkg/commons/services.go).
use torq.Prelude.{
  ℕ, ◌≡◌, refl, ◌≢◌, inl, inr, Bool, true, false, Bool-cases, ◌&&◌, Option, none, some,
  Option-cases, List, [], arith, sym, ap, ◌∙◌, nat_eq, ◌==◌, if◌then◌else◌,
}
use torq.Prelude.Map.{Map, lookup, insert, lookup-insert}
use torq.Constants.{
  is_lnd_service, Status, active, SubscriptionStream, subscription_streams, transaction_stream,
  htlc_event_stream, channel_event_stream, graph_event_stream, forward_stream, invoice_stream,
  payment_stream, in_flight_payment_stream, peer_event_stream, channel_balance_cache_stream,
}
use torq.Services.Types.{stream_eq, Services, same_stream}
use torq.Services.Operations.{
  init_service_maps, with_entry, streams_or_empty, status_or_zero, status_of, stream_status_of,
  all_streams, set_stream, set_status, set_lnd_stream_statuses, set_stream_statuses, restreamed,
}

abbrev pub stream_time_of : ℕ → SubscriptionStream → Services → Option ℕ
stream_time_of n ss rs = lookup ss (streams_or_empty (lookup n rs.stream_boot_time))

-- An active service has a boot time, and an active stream has one.
abbrev pub HasBootTimes : Services → Type 0
HasBootTimes rs =
    ((n : ℕ) → status_of n rs ≡ active → lookup n rs.boot_time ≢ none)
    × ((n : ℕ) (ss : SubscriptionStream)
        → stream_status_of n ss rs ≡ active
        → stream_time_of n ss rs ≢ none)

-- Nothing becomes active and no time changes.
abbrev pub ActivatesNone : Services → Services → Type 0
ActivatesNone rs rs' =
    ((k : ℕ) → status_of k rs' ≡ active → status_of k rs ≡ active)
    × ((k : ℕ) → lookup k rs'.boot_time ≡ lookup k rs.boot_time)
    × ((k : ℕ) (ss : SubscriptionStream)
        → stream_status_of k ss rs' ≡ active
        → stream_status_of k ss rs ≡ active)
    × ((k : ℕ) (ss : SubscriptionStream) → stream_time_of k ss rs' ≡ stream_time_of k ss rs)

pub ActivatesNone-HasBootTimes :
    (rs rs' : Services) → ActivatesNone rs rs' → HasBootTimes rs → HasBootTimes rs'
ActivatesNone-HasBootTimes rs rs' a h = (
  λ n e missing. h.0 n (a.0 n e) (sym (a.1 n) ∙ missing),
  λ n ss e missing. h.1 n ss (a.2 n ss e) (sym (a.3 n ss) ∙ missing),
)

pub ActivatesNone-trans :
    (x y z : Services) → ActivatesNone x y → ActivatesNone y z → ActivatesNone x z
ActivatesNone-trans x y z a b = (
  λ k e. a.0 k (b.0 k e),
  λ k. b.1 k ∙ a.1 k,
  λ k ss e. a.2 k ss (b.2 k ss e),
  λ k ss. b.3 k ss ∙ a.3 k ss,
)

-- The entry that is made for a node is empty, as what is read where there is none.
with_entry-read :
    {A : Type 0} (k n : ℕ) (m : Map ℕ (List A))
    → streams_or_empty (lookup k (with_entry n m)) ≡ streams_or_empty (lookup k m)
unfolding with_entry
with_entry-read k n m = elim (Option-cases (lookup n m)) [
  | inl missing ↦ ground (arith, missing, lookup-insert n k [] m)
  | inr (v, found) ↦ rw found refl
]

pub init-ActivatesNone : (n : ℕ) (rs : Services) → ActivatesNone rs (init_service_maps n rs)
init-ActivatesNone n rs = (
  λ k e. e,
  λ k. refl,
  λ k ss e. sym (ap (λ m. status_or_zero (lookup ss m)) (with_entry-read k n rs.stream_status)) ∙ e,
  λ k ss. ap (lookup ss) (with_entry-read k n rs.stream_boot_time),
)

-- A new status that is not Active.
pub status-ActivatesNone :
    (n : ℕ) (s : Status) (rs : Services) → s ≢ active → ActivatesNone rs (set_status n s rs)
status-ActivatesNone n s rs ne = (
  λ k e. ground (arith, lookup-insert n k s rs.service_status),
  λ k. refl,
  λ k ss e. e,
  λ k ss. refl,
)

lookup-all_streams :
    (s : Status) (ss : SubscriptionStream) → lookup ss (all_streams s subscription_streams) ≡ some s
unfolding all_streams lookup insert same_stream
lookup-all_streams s transaction_stream = refl
lookup-all_streams s htlc_event_stream = refl
lookup-all_streams s channel_event_stream = refl
lookup-all_streams s graph_event_stream = refl
lookup-all_streams s forward_stream = refl
lookup-all_streams s invoice_stream = refl
lookup-all_streams s payment_stream = refl
lookup-all_streams s in_flight_payment_stream = refl
lookup-all_streams s peer_event_stream = refl
lookup-all_streams s channel_balance_cache_stream = refl

pub streams-ActivatesNone :
    (n : ℕ) (s : Status) (rs : Services)
    → s ≢ active
    → ActivatesNone rs (set_stream_statuses n s rs)
streams-ActivatesNone n s rs ne = (λ k e. e, λ k. refl, stream, λ k ss. refl)
  where
    all : Map SubscriptionStream Status
    all = all_streams s subscription_streams

    stream :
        (k : ℕ) (ss : SubscriptionStream)
        → stream_status_of k ss (set_stream_statuses n s rs) ≡ active
        → stream_status_of k ss rs ≡ active
    stream k ss e =
        let read = lookup-insert n k all rs.stream_status in
        elim (Bool-cases (n == k)) [
          | inl same ↦
              let o : lookup k (insert n all rs.stream_status) ≡ some all =
                ground (arith, read, same) in
              let v : stream_status_of k ss (set_stream_statuses n s rs) ≡ s =
                ap (λ x. status_or_zero (lookup ss (streams_or_empty x))) o
                ∙ ap status_or_zero (lookup-all_streams s ss) in
              elim (ne (sym v ∙ e)) [ ]
          | inr other ↦
              let o : lookup k (insert n all rs.stream_status) ≡ lookup k rs.stream_status =
                ground (arith, read, other) in
              sym (ap (λ x. status_or_zero (lookup ss (streams_or_empty x))) o) ∙ e
        ]

chosen-ActivatesNone :
    (b : Bool) (x y : Services) → ActivatesNone y x → ActivatesNone y (if b then x else y)
chosen-ActivatesNone true x y h = h
chosen-ActivatesNone false x y h = (λ k e. e, λ k. refl, λ k ss e. e, λ k ss. refl)

-- A new status that is not Active, and the streams set to one that is not.
pub both-ActivatesNone :
    (n : ℕ) (s t : Status) (rs : Services)
    → s ≢ active
    → t ≢ active
    → ActivatesNone rs (set_lnd_stream_statuses n t (set_status n s rs))
both-ActivatesNone n s t rs ns nt =
    ActivatesNone-trans rs (set_status n s rs) (set_lnd_stream_statuses n t (set_status n s rs))
      (status-ActivatesNone n s rs ns)
      (chosen-ActivatesNone (is_lnd_service rs.service_type)
        (set_stream_statuses n t (set_status n s rs)) (set_status n s rs)
        (streams-ActivatesNone n t (set_status n s rs) nt))

pub lnd-ActivatesNone :
    (n : ℕ) (s : Status) (rs : Services)
    → s ≢ active
    → ActivatesNone rs (set_lnd_stream_statuses n s rs)
lnd-ActivatesNone n s rs ne =
    chosen-ActivatesNone (is_lnd_service rs.service_type) (set_stream_statuses n s rs) rs
      (streams-ActivatesNone n s rs ne)

-- What a write to a stream of a node changes.
pub set_stream-read :
    {A : Type 0} (k n : ℕ) (ss st : SubscriptionStream) (a : A)
    (m : Map ℕ (Map SubscriptionStream A))
    → lookup st (streams_or_empty (lookup k (set_stream n ss a m)))
      ≡ (if n == k && same_stream ss st then some a else lookup st (streams_or_empty (lookup k m)))
set_stream-read k n ss st a m =
    let old = streams_or_empty (lookup n m) in
    let outer = lookup-insert n k (insert ss a old) m in
    let inner = lookup-insert ss st a old in ground (arith, outer, inner)

pub restreamed-ActivatesNone :
    (n : ℕ) (ss : SubscriptionStream) (s : Status) (rs : Services)
    → s ≢ active
    → ActivatesNone rs (restreamed n ss s rs)
restreamed-ActivatesNone n ss s rs ne = (
  λ k e. e,
  λ k. refl,
  λ k st e. ground (arith, set_stream-read k n ss st s rs.stream_status),
  λ k st. refl,
)
