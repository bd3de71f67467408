-- ===== src/Events.antt =====
-- Events that travel over the event channel (pkg/commons/events.go). A pointer is an `Option`, an
-- `int` is its bit pattern, and a time is a count of nanoseconds.
use torq.Prelude.{ℕ, Bool, String, Option, List}
use torq.Prelude.Text.{Text}
use torq.Constants.{ChannelStatus, Status}

pub record HtlcEvent : Type 0 where
  pub event_time : ℕ
  pub node_id : ℕ
  pub timestamp : ℕ
  pub payload : String
  pub event_origin : Option String
  pub event_type : Option String
  pub outgoing_htlc_id : Option ℕ
  pub incoming_htlc_id : Option ℕ
  pub timestamp_ns : Option ℕ
  pub incoming_amt_msat : Option ℕ
  pub outgoing_amt_msat : Option ℕ
  pub incoming_timelock : Option ℕ
  pub outgoing_timelock : Option ℕ
  pub bolt_failure_code : Option String
  pub bolt_failure_string : Option String
  pub lnd_failure_detail : Option String
  pub outgoing_channel_id : Option ℕ
  pub incoming_channel_id : Option ℕ

-- `ChannelEvent`, with its event data. The update type is LND's number for it.
pub record ChannelEvent : Type 0 where
  pub event_time : ℕ
  pub node_id : ℕ
  pub type : ℕ
  pub channel_id : ℕ

-- `ChannelGraphEventData`.
pub record ChannelGraphEventData : Type 0 where
  pub disabled : Bool
  pub time_lock_delta : ℕ
  pub min_htlc_msat : ℕ
  pub max_htlc_msat : ℕ
  pub fee_base_msat : ℕ
  pub fee_rate_milli_msat : ℕ

-- `ChannelGraphEvent`, with its event data and its graph event data.
pub record ChannelGraphEvent : Type 0 where
  pub event_time : ℕ
  pub node_id : ℕ
  pub event_node_id : Option ℕ
  pub announcing_node_id : Option ℕ
  pub connecting_node_id : Option ℕ
  pub channel_id : Option ℕ
  pub current : ChannelGraphEventData
  pub previous_event_time : ℕ
  pub previous : ChannelGraphEventData

pub record InvoiceEvent : Type 0 where
  pub event_time : ℕ
  pub node_id : ℕ
  pub channel_id : ℕ
  pub add_index : ℕ
  pub value_msat : ℕ
  pub state : ℕ
  pub amount_paid_msat : ℕ
  pub settled_date : ℕ
  pub destination_node_id : Option ℕ

pub record PeerEvent : Type 0 where
  pub event_time : ℕ
  pub node_id : ℕ
  pub type : ℕ
  pub event_node_id : ℕ

pub record PaymentEvent : Type 0 where
  pub event_time : ℕ
  pub node_id : ℕ
  pub amount_paid : ℕ  -- int64
  pub fee_msat : ℕ
  pub payment_status : ℕ
  pub payment_failure_reason : ℕ
  pub outgoing_channel_id : Option ℕ
  pub rebalance_amount_msat : Option ℕ
  pub incoming_channel_id : Option ℕ

pub record ForwardEvent : Type 0 where
  pub event_time : ℕ
  pub node_id : ℕ
  pub timestamp : ℕ
  pub fee_msat : ℕ
  pub amount_in_msat : ℕ  -- uint64
  pub amount_out_msat : ℕ  -- uint64
  pub outgoing_channel_id : Option ℕ
  pub incoming_channel_id : Option ℕ

pub record FailedRequest : Type 0 where
  pub reason : String
  pub error : String

pub record ChannelPoint : Type 0 where
  pub tx_id : List ℕ
  pub output_index : ℕ

pub record CloseChannelRequest : Type 0 where
  pub node_id : ℕ
  pub channel_id : ℕ
  pub force : Option Bool
  pub target_conf : Option ℕ
  pub delivery_address : Option String
  pub sat_per_vbyte : Option ℕ

pub record CloseChannelStatus : Type 0 where
  pub closing_tx_id : List ℕ
  pub success : Bool

pub record CloseChannelResponse : Type 0 where
  pub req_id : String
  pub request : CloseChannelRequest
  pub status : ChannelStatus
  pub close_pending_channel_point : ChannelPoint
  pub close_channel_status : CloseChannelStatus

pub record UpdateChannelRequest : Type 0 where
  pub node_id : ℕ
  pub channel_id : Option ℕ
  pub fee_rate_milli_msat : Option ℕ
  pub fee_base_msat : Option ℕ
  pub max_htlc_msat : Option ℕ
  pub min_htlc_msat : Option ℕ
  pub time_lock_delta : Option ℕ

pub record UpdateChannelResponse : Type 0 where
  pub request : UpdateChannelRequest
  pub status : Status
  pub failed_updates : List FailedRequest

pub record OpenChannelRequest : Type 0 where
  pub node_id : ℕ
  pub sat_per_vbyte : Option ℕ
  pub node_pub_key : Text
  pub host : Option Text
  pub local_funding_amount : ℕ  -- int64
  pub push_sat : Option ℕ
  pub target_conf : Option ℕ
  pub is_private : Option Bool
  pub min_htlc_msat : Option ℕ
  pub remote_csv_delay : Option ℕ
  pub min_confs : Option ℕ
  pub spend_unconfirmed : Option Bool
  pub close_address : Option String

pub record OpenChannelResponse : Type 0 where
  pub req_id : String
  pub request : OpenChannelRequest
  pub status : ChannelStatus
  pub channel_point : Text
  pub pending_channel_point : Text

pub record BatchOpenChannel : Type 0 where
  pub node_pubkey : Text
  pub local_funding_amount : ℕ  -- int64
  pub push_sat : Option ℕ
  pub is_private : Option Bool
  pub min_htlc_msat : Option ℕ

pub record BatchOpenRequest : Type 0 where
  pub node_id : ℕ
  pub channels : List BatchOpenChannel
  pub target_conf : Option ℕ
  pub sat_per_vbyte : Option ℕ

pub record PendingChannel : Type 0 where
  pub pending_channel_point : Text

pub record BatchOpenResponse : Type 0 where
  pub pending_channels : List PendingChannel

pub record NewPaymentRequest : Type 0 where
  pub node_id : ℕ
  pub invoice : Option Text
  pub time_out_secs : ℕ  -- int32
  pub dest : Option Text
  pub amt_msat : Option ℕ  -- int64
  pub fee_limit_msat : Option ℕ  -- int64
  pub allow_self_payment : Option Bool

pub record MppRecord : Type 0 where
  pub payment_addr : Text
  pub total_amt_msat : ℕ

pub record Hops : Type 0 where
  pub chan_id : Text
  pub expiry : ℕ
  pub amt_to_forward_msat : ℕ
  pub pub_key : Text
  pub mpp_record : MppRecord

pub record Route : Type 0 where
  pub total_time_lock : ℕ
  pub hops : List Hops
  pub total_amt_msat : ℕ

pub record FailureDetails : Type 0 where
  pub reason : Text
  pub failure_source_index : ℕ
  pub height : ℕ

-- A time is its nanoseconds since 1970.
pub record Attempt : Type 0 where
  pub attempt_id : ℕ
  pub status : Text
  pub route : Route
  pub attempt_time_ns : ℕ
  pub resolve_time_ns : ℕ
  pub preimage : Text
  pub failure : FailureDetails

pub record NewPaymentResponse : Type 0 where
  pub req_id : String
  pub request : NewPaymentRequest
  pub status : Text
  pub failure_reason : Text
  pub hash : Text
  pub preimage : Text
  pub payment_request : Text
  pub amount_msat : ℕ
  pub fee_limit_msat : ℕ
  pub fee_paid_msat : ℕ
  pub creation_date : ℕ
  pub attempt : Attempt
