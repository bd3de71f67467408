-- ===== src/ChannelState/Samples.antt =====
-- Small caches for the runs of the channel state cache (pkg/commons/managedChannelState.go).
use torq.Prelude.{◌≡◌, refl, true, false, some, [], ◌∷◌, nat_eq}
use torq.Prelude.Map.{lookup}
use torq.Constants.{Status, active}
use torq.ChannelCache.Types as ChannelTypes
use torq.ChannelState.Types.{Settings, Cache}
use torq.ChannelState.Reads.{find_channel, is_node_ready}

abbrev pub seven : Settings
seven = record {
  node_id = 1;
  remote_node_id = 2;
  channel_id = 7;
  local_balance = 600;
  local_disabled = false;
  local_fee_base_msat = 1000;
  local_fee_rate_milli_msat = 10;
  local_min_htlc_msat = 1;
  local_max_htlc_msat = 1000000;
  local_time_lock_delta = 40;
  remote_balance = 400;
  remote_disabled = false;
  remote_fee_base_msat = 0;
  remote_fee_rate_milli_msat = 0;
  remote_min_htlc_msat = 0;
  remote_max_htlc_msat = 0;
  remote_time_lock_delta = 40;
  unsettled_balance = 0;
  pending_htlcs = [];
  pending_incoming_htlc_count = 0;
  pending_incoming_htlc_amount = 0;
  pending_outgoing_htlc_count = 0;
  pending_outgoing_htlc_amount = 0;
  commit_fee = 0;
  commit_weight = 0;
  fee_per_kw = 0;
  num_updates = 0;
  chan_status_flags = "";
  commitment_type = 0;
  lifetime = 0;
  total_satoshis_received = 0;
  total_satoshis_sent = 0;
}

abbrev pub one_channel : Cache
one_channel = record {
  status = (1, active) ∷ [];
  channels = (1, (7, seven) ∷ []) ∷ [];
  deactivation_time = [];
}

abbrev pub no_channels : ChannelTypes.Cache
no_channels = record {
  settings = [];
  short_channel_ids = [];
  all_short_channel_ids = [];
  channel_points = [];
  all_channel_points = [];
  statuses = [];
}

abbrev pub known_channels : ChannelTypes.Cache
known_channels = record no_channels {
  settings =
      (7, record ChannelTypes.zero_settings { channel_id = 7; capacity = 1000; status = 1 }) ∷ [];
}

pub found_seven : find_channel one_channel 1 7 ≡ some seven
unfolding find_channel lookup
found_seven = refl

pub one_is_ready : is_node_ready one_channel 5 1 false ≡ true
unfolding is_node_ready lookup
one_is_ready = refl

pub one_is_active : lookup {V = Status} 1 one_channel.status ≡ some active
unfolding lookup
one_is_active = refl
