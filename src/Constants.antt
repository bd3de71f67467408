-- ===== src/Constants.antt =====
-- The enumerations of pkg/commons/constants.go. Go's zero value is the first constructor of each.
use torq.Prelude.{ℕ, Bool, true, false, List, [], ◌∷◌, ◌==◌}

pub data ServiceType : Type 0 where
  lnd_service vector_service amboss_service torq_service : ServiceType

abbrev pub is_lnd_service : ServiceType → Bool
is_lnd_service lnd_service = true
is_lnd_service _ = false

pub data Status : Type 0 where
  inactive active pending deleted initializing : Status

abbrev pub status_code : Status → ℕ
status_code inactive = 0
status_code active = 1
status_code pending = 2
status_code deleted = 3
status_code initializing = 4

-- `a == b` on statuses.
abbrev pub status_eq : Status → Status → Bool
status_eq a b = status_code a == status_code b

abbrev pub is_active : Status → Bool
is_active active = true
is_active _ = false

pub data Chain : Type 0 where
  bitcoin litecoin : Chain

pub data Network : Type 0 where
  main_net test_net reg_test sig_net sim_net : Network

-- A `ChannelStatus` is compared by its number, and is kept as that number.
abbrev pub ChannelStatus : Type 0
ChannelStatus = ℕ

abbrev pub opening : ChannelStatus
opening = 0

abbrev pub open_channel : ChannelStatus
open_channel = 1

abbrev pub closing : ChannelStatus
closing = 2

abbrev pub cooperative_closed : ChannelStatus
cooperative_closed = 100

abbrev pub tolerated_subscription_downtime_seconds : ℕ
tolerated_subscription_downtime_seconds = 15

pub data SubscriptionStream : Type 0 where
  transaction_stream htlc_event_stream channel_event_stream graph_event_stream : SubscriptionStream
  forward_stream invoice_stream payment_stream in_flight_payment_stream : SubscriptionStream
  peer_event_stream channel_balance_cache_stream : SubscriptionStream

abbrev pub subscription_streams : List SubscriptionStream
subscription_streams =
    transaction_stream ∷ htlc_event_stream ∷ channel_event_stream ∷ graph_event_stream
    ∷ forward_stream ∷ invoice_stream ∷ payment_stream ∷ in_flight_payment_stream
    ∷ peer_event_stream ∷ channel_balance_cache_stream ∷ []

-- `IsChannelBalanceCache` of a stream that is not nil.
abbrev pub is_channel_balance_cache : SubscriptionStream → Bool
is_channel_balance_cache forward_stream = true
is_channel_balance_cache invoice_stream = true
is_channel_balance_cache payment_stream = true
is_channel_balance_cache peer_event_stream = true
is_channel_balance_cache channel_event_stream = true
is_channel_balance_cache graph_event_stream = true
is_channel_balance_cache htlc_event_stream = true
is_channel_balance_cache _ = false
