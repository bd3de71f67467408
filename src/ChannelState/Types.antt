-- ===== src/ChannelState/Types.antt =====
-- The data of pkg/commons/managedChannelState.go: messages, cached states and replies.
use torq.Prelude.{ℕ, Bool, String, Option, List}
use torq.Prelude.Map.{Map}
use torq.Constants.{Status}
use torq.Events.{HtlcEvent}

pub data OperationType : Type 0 where
  read_channelstate read_all_channelstates : OperationType
  read_channelbalancestate read_all_channelbalancestates : OperationType
  write_initial_channelstates write_channelstate_nodestatus : OperationType
  write_channelstate_channelstatus write_channelstate_routingpolicy : OperationType
  write_channelstate_updatebalance write_channelstate_updatehtlcevent : OperationType

pub data HtlcInclude : Type 0 where
  ignored : HtlcInclude
  local_downwards remote_downwards local_and_remote_downwards : HtlcInclude
  local_upwards remote_upwards local_and_remote_upwards : HtlcInclude

pub data StateInclude : Type 0 where
  all_local_active_channels all_local_and_remote_active_channels all_channels : StateInclude

pub record Htlc : Type 0 where
  pub incoming : Bool
  pub amount : ℕ  -- int64
  pub hash_lock : List ℕ
  pub expiration_height : ℕ
  pub htlc_index : ℕ  -- uint64
  pub forwarding_channel : ℕ
  pub forwarding_htlc_index : ℕ

-- `ManagedChannelStateSettings`.
pub record Settings : Type 0 where
  pub node_id : ℕ
  pub remote_node_id : ℕ
  pub channel_id : ℕ
  pub local_balance : ℕ  -- int64
  pub local_disabled : Bool
  pub local_fee_base_msat : ℕ
  pub local_fee_rate_milli_msat : ℕ
  pub local_min_htlc_msat : ℕ
  pub local_max_htlc_msat : ℕ
  pub local_time_lock_delta : ℕ
  pub remote_balance : ℕ  -- int64
  pub remote_disabled : Bool
  pub remote_fee_base_msat : ℕ
  pub remote_fee_rate_milli_msat : ℕ
  pub remote_min_htlc_msat : ℕ
  pub remote_max_htlc_msat : ℕ
  pub remote_time_lock_delta : ℕ
  pub unsettled_balance : ℕ  -- int64
  pub pending_htlcs : List Htlc
  pub pending_incoming_htlc_count : ℕ
  pub pending_incoming_htlc_amount : ℕ  -- int64
  pub pending_outgoing_htlc_count : ℕ
  pub pending_outgoing_htlc_amount : ℕ  -- int64
  pub commit_fee : ℕ
  pub commit_weight : ℕ
  pub fee_per_kw : ℕ
  pub num_updates : ℕ  -- uint64
  pub chan_status_flags : String
  pub commitment_type : ℕ
  pub lifetime : ℕ
  pub total_satoshis_received : ℕ
  pub total_satoshis_sent : ℕ

-- `ManagedChannelBalanceStateSettings`.
pub record BalanceState : Type 0 where
  pub node_id : ℕ
  pub remote_node_id : ℕ
  pub channel_id : ℕ
  pub htlc_include : HtlcInclude
  pub local_balance : ℕ
  pub local_balance_per_mille_ratio : ℕ
  pub remote_balance : ℕ
  pub remote_balance_per_mille_ratio : ℕ

-- `ManagedChannelState`, the message. A response channel is present or nil.
pub record Message : Type 0 where
  pub operation : OperationType
  pub node_id : ℕ
  pub remote_node_id : ℕ
  pub channel_id : ℕ
  pub status : Status
  pub is_local : Bool
  pub balance : ℕ
  pub disabled : Bool
  pub fee_base_msat : ℕ
  pub fee_rate_milli_msat : ℕ
  pub min_htlc_msat : ℕ
  pub max_htlc_msat : ℕ
  pub time_lock_delta : ℕ
  pub amount : ℕ  -- int64
  pub force_response : Bool
  pub htlc_event : HtlcEvent
  pub channel_state_settings : List Settings
  pub htlc_include : HtlcInclude
  pub state_include : StateInclude
  pub state_out : Bool
  pub states_out : Bool
  pub balance_state_out : Bool
  pub balance_states_out : Bool

-- What one message sends back. A nil pointer is `none`, a nil slice the empty list.
pub data Reply : Type 0 where
  no_reply : Reply
  state : Option Settings → Reply
  states : List Settings → Reply
  balance_state : Option BalanceState → Reply
  balance_states : List BalanceState → Reply

-- The three maps of the loop. A node's inner map is reached through its node alone, so a write
-- through `nodeChannels` is a write to the outer map's entry.
pub record Cache : Type 0 where
  pub status : Map ℕ Status
  pub channels : Map ℕ (Map ℕ Settings)
  pub deactivation_time : Map ℕ ℕ  -- nanoseconds
