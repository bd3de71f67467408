-- ===== src/ChannelState/Clients.antt =====
-- The functions that build messages for the channel state cache
-- (pkg/commons/managedChannelState.go). A caller that reads waits for the reply.
use torq.Prelude.{ℕ, ◌/◌, Bool, true, false, none, List, [], if◌then◌else◌}
use torq.Words.{neg64}
use torq.Constants.{Status, inactive}
use torq.Events.{HtlcEvent}
use torq.ChannelState.Types.{
  OperationType, read_channelstate, read_all_channelstates, read_channelbalancestate,
  write_initial_channelstates, write_channelstate_nodestatus, write_channelstate_channelstatus,
  write_channelstate_routingpolicy, write_channelstate_updatebalance,
  write_channelstate_updatehtlcevent, HtlcInclude, ignored, StateInclude, all_local_active_channels,
  Settings, Message,
}

abbrev pub zero_htlc_event : HtlcEvent
zero_htlc_event = record {
  event_time = 0;
  node_id = 0;
  timestamp = 0;
  payload = "";
  event_origin = none;
  event_type = none;
  outgoing_htlc_id = none;
  incoming_htlc_id = none;
  timestamp_ns = none;
  incoming_amt_msat = none;
  outgoing_amt_msat = none;
  incoming_timelock = none;
  outgoing_timelock = none;
  bolt_failure_code = none;
  bolt_failure_string = none;
  lnd_failure_detail = none;
  outgoing_channel_id = none;
  incoming_channel_id = none;
}

-- `ManagedChannelState{Type: operation}`: every other field is its zero value.
abbrev pub zero_message : OperationType → Message
zero_message operation = record {
  operation = operation;
  node_id = 0;
  remote_node_id = 0;
  channel_id = 0;
  status = inactive;
  is_local = false;
  balance = 0;
  disabled = false;
  fee_base_msat = 0;
  fee_rate_milli_msat = 0;
  min_htlc_msat = 0;
  max_htlc_msat = 0;
  time_lock_delta = 0;
  amount = 0;
  force_response = false;
  htlc_event = zero_htlc_event;
  channel_state_settings = [];
  htlc_include = ignored;
  state_include = all_local_active_channels;
  state_out = false;
  states_out = false;
  balance_state_out = false;
  balance_states_out = false;
}

unfoldable pub get_channel_states : ℕ → Bool → Message
get_channel_states node_id force_response = record (zero_message read_all_channelstates) {
  node_id = node_id;
  force_response = force_response;
  states_out = true;
}

unfoldable pub get_channel_state : ℕ → ℕ → Bool → Message
get_channel_state node_id channel_id force_response = record (zero_message read_channelstate) {
  node_id = node_id;
  channel_id = channel_id;
  force_response = force_response;
  state_out = true;
}

-- The source gives this message the operation of a single read.
unfoldable pub get_channel_balance_states : ℕ → Bool → StateInclude → HtlcInclude → Message
get_channel_balance_states node_id force_response state_include htlc_include =
    record (zero_message read_channelbalancestate) {
      node_id = node_id;
      force_response = force_response;
      htlc_include = htlc_include;
      state_include = state_include;
      balance_states_out = true;
    }

unfoldable pub get_channel_balance_state : ℕ → ℕ → Bool → HtlcInclude → Message
get_channel_balance_state node_id channel_id force_response htlc_include =
    record (zero_message read_channelbalancestate) {
      node_id = node_id;
      channel_id = channel_id;
      force_response = force_response;
      htlc_include = htlc_include;
      balance_state_out = true;
    }

unfoldable pub set_channel_states : ℕ → List Settings → Message
set_channel_states node_id settings = record (zero_message write_initial_channelstates) {
  node_id = node_id;
  channel_state_settings = settings;
}

unfoldable pub set_channel_state_node_status : ℕ → Status → Message
set_channel_state_node_status node_id status = record (zero_message write_channelstate_nodestatus) {
  node_id = node_id;
  status = status;
}

unfoldable pub set_channel_state_channel_status : ℕ → ℕ → Status → Message
set_channel_state_channel_status node_id channel_id status =
    record (zero_message write_channelstate_channelstatus) {
      node_id = node_id;
      channel_id = channel_id;
      status = status;
    }

unfoldable pub set_channel_state_routing_policy :
    ℕ → ℕ → Bool → Bool → (time_lock_delta min_htlc max_htlc fee_base fee_rate : ℕ) → Message
set_channel_state_routing_policy node_id channel_id is_local disabled time_lock_delta min_htlc
      max_htlc fee_base fee_rate =
    record (zero_message write_channelstate_routingpolicy) {
      node_id = node_id;
      channel_id = channel_id;
      is_local = is_local;
      disabled = disabled;
      time_lock_delta = time_lock_delta;
      min_htlc_msat = min_htlc;
      max_htlc_msat = max_htlc;
      fee_base_msat = fee_base;
      fee_rate_milli_msat = fee_rate;
    }

unfoldable pub set_channel_state_balance_update_msat : ℕ → ℕ → Bool → ℕ → Message
set_channel_state_balance_update_msat node_id channel_id increase_balance amount =
    record (zero_message write_channelstate_updatebalance) {
      node_id = node_id;
      channel_id = channel_id;
      amount = if increase_balance then amount / 1000 else neg64 (amount / 1000);
    }

unfoldable pub set_channel_state_balance_update : ℕ → ℕ → Bool → ℕ → Message
set_channel_state_balance_update node_id channel_id increase_balance amount =
    record (zero_message write_channelstate_updatebalance) {
      node_id = node_id;
      channel_id = channel_id;
      amount = if increase_balance then amount else neg64 amount;
    }

unfoldable pub set_channel_state_balance_htlc_event : HtlcEvent → Message
set_channel_state_balance_htlc_event htlc_event =
    record (zero_message write_channelstate_updatehtlcevent) { htlc_event = htlc_event }
