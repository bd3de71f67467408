-- ===== src/Services/Types.antt =====
-- The state of `Services` (pkg/commons/services.go) and what its operations send and call.
-- A nil map reads like an empty one, and each operation makes the maps before it writes.
use torq.Prelude.{
  ℕ, ◌≡◌, refl, sym, ap, ◌∙◌, ◌↔◌, Bool, true, ==_iff, Option, Eq, ◌==◌, if◌then◌else◌,
}
use torq.Prelude.Map.{Map}
use torq.Constants.{
  ServiceType, Status, SubscriptionStream, transaction_stream, htlc_event_stream,
  channel_event_stream, graph_event_stream, forward_stream, invoice_stream, payment_stream,
  in_flight_payment_stream, peer_event_stream, channel_balance_cache_stream,
}

abbrev stream_code : SubscriptionStream → ℕ
stream_code transaction_stream = 0
stream_code htlc_event_stream = 1
stream_code channel_event_stream = 2
stream_code graph_event_stream = 3
stream_code forward_stream = 4
stream_code invoice_stream = 5
stream_code payment_stream = 6
stream_code in_flight_payment_stream = 7
stream_code peer_event_stream = 8
stream_code channel_balance_cache_stream = 9

-- The stream of a code, any above the last.
abbrev of_code : ℕ → SubscriptionStream
of_code i =
    if i == 0
    then transaction_stream
    else if i == 1
    then htlc_event_stream
    else if i == 2
    then channel_event_stream
    else if i == 3
    then graph_event_stream
    else if i == 4
    then forward_stream
    else if i == 5
    then invoice_stream
    else if i == 6
    then payment_stream
    else if i == 7
    then in_flight_payment_stream
    else if i == 8
    then peer_event_stream
    else channel_balance_cache_stream

of_code-stream_code : (a : SubscriptionStream) → of_code (stream_code a) ≡ a
of_code-stream_code transaction_stream = refl
of_code-stream_code htlc_event_stream = refl
of_code-stream_code channel_event_stream = refl
of_code-stream_code graph_event_stream = refl
of_code-stream_code forward_stream = refl
of_code-stream_code invoice_stream = refl
of_code-stream_code payment_stream = refl
of_code-stream_code in_flight_payment_stream = refl
of_code-stream_code peer_event_stream = refl
of_code-stream_code channel_balance_cache_stream = refl

unfoldable pub same_stream : SubscriptionStream → SubscriptionStream → Bool
same_stream a b = stream_code a == stream_code b

pub same_stream_iff : (a b : SubscriptionStream) → (same_stream a b ≡ true) ↔ (a ≡ b)
unfolding same_stream
same_stream_iff a b = (sound, λ e. (==_iff (stream_code a) (stream_code b)).1 (ap stream_code e))
  where
    sound : (stream_code a == stream_code b) ≡ true → a ≡ b
    sound h =
        sym (of_code-stream_code a)
        ∙ ap of_code ((==_iff (stream_code a) (stream_code b)).0 h)
        ∙ of_code-stream_code b

instance abbrev pub stream_eq : Eq SubscriptionStream
stream_eq = record { beq = same_stream; beq_iff = same_stream_iff }

-- A boot lock is locked or not. It belongs to the node that it was made for, and a pointer to it is
-- that node's id. A cancel function is known by a number.
pub record Services : Type 0 where
  pub service_type : ServiceType
  pub service_status : Map ℕ Status
  pub running_list : Map ℕ ℕ
  pub boot_lock : Map ℕ Bool
  pub boot_time : Map ℕ ℕ
  pub cancel_time : Map ℕ ℕ
  pub enforced_service_status : Map ℕ (Option Status)
  pub no_delay : Map ℕ Bool
  pub stream_status : Map ℕ (Map SubscriptionStream Status)
  pub stream_boot_time : Map ℕ (Map SubscriptionStream ℕ)
  pub stream_initialization_ping_time : Map ℕ (Map SubscriptionStream ℕ)
  pub include_incomplete : Map ℕ Bool

-- `ServiceEvent` (pkg/commons/events.go), with its event data.
pub record ServiceEvent : Type 0 where
  pub event_time : ℕ
  pub node_id : ℕ
  pub type : ServiceType
  pub subscription_stream : Option SubscriptionStream
  pub status : Status
  pub previous_status : Status

-- What an operation does besides changing the state: it sends an event, or calls a cancel function.
pub data Effect : Type 0 where
  send : ServiceEvent → Effect
  call : ℕ → Effect
