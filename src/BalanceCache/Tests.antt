-- ===== src/BalanceCache/Tests.antt =====
-- Events on small caches, and the theorems at those (pkg/lnd/channelBalanceCache.go).
use torq.Prelude.{
  ℕ, ◌+◌, ◌/◌, ◌≡◌, refl, ◌↔◌, Bool, true, false, none, some, [], ◌∷◌, map, Memᴰ, arith, nat_eq,
}
use torq.Prelude.Map.{lookup, insert}
use torq.Prelude.Text.{Text}
use torq.Runtime.{returns, panics}
use torq.Constants.{
  lnd_service, active, pending, subscription_streams, channel_balance_cache_stream,
}
use torq.Events.{ForwardEvent, CloseChannelResponse}
use torq.Services.Types.{stream_eq, same_stream, Services}
use torq.Services.Operations.{
  with_entry, set_stream_status, stream_status_of, now_booted, added, all_streams,
}
use torq.Services.Reads.{get_channel_balance_cache_stream_status, balance_statuses, merge_statuses}
use torq.Services.BootTimes.{empty}
use torq.ChannelState.Types.{Settings, state, Cache}
use torq.ChannelState.Reads.{find_channel}
use torq.ChannelState.Writes.{update_channel, apply_balance, write_update_balance}
use torq.ChannelState.Process.{process}
use torq.ChannelState.Clients.{get_channel_state, set_channel_state_balance_update_msat}
use torq.ChannelState.Samples.{seven, one_channel, no_channels, found_seven, one_is_ready}
use torq.BalanceCache.Types.{LndCodes, forward_event, update_channel_response}
use torq.BalanceCache.Dispatch.{on_forward, process_broadcasted_event}
use torq.BalanceCache.Deliver.{deliver, handle}
use torq.BalanceCache.Frame.{handle-frame}
use torq.BalanceCache.Answers.{answer, update_read_back, update_panics}
use torq.BalanceCache.Forwards.{forward_moves}
use torq.BalanceCache.Initial.{
  LndChannel, ChannelPolicy, Answers, initialize_channel_balance_from_lnd,
}
use torq.BalanceCache.Loaded.{IsCached, initialize-read_back}
use torq.BalanceCache.Sync.{
  Round, begin_round, send_stream_event, synchronize_data_from_lnd, maintain, start,
}
use torq.BalanceCache.Rounds.{IsInStep, maintain-IsInStep}
use torq.BalanceCache.Unknown.{unknown_channel-announced_active}

abbrev codes : LndCodes
codes = record {
  active_channel = 2;
  inactive_channel = 3;
  closed_channel = 1;
  settled = 1;
  succeeded = 2;
  peer_online = 0;
  peer_offline = 1;
}

abbrev two_channels : Cache
two_channels = record one_channel {
  channels =
      (
        1,
        (7, seven)
            ∷ (8, record seven { channel_id = 8 })
            ∷ (9, record seven { channel_id = 9 })
            ∷ [],
      )
      ∷ [];
}

-- 25 satoshis come in over channel 7, and 24 go out over channel 8.
abbrev forwarded : ForwardEvent
forwarded = record {
  event_time = 1;
  node_id = 1;
  timestamp = 1;
  fee_msat = 1000;
  amount_in_msat = 25000;
  amount_out_msat = 24000;
  outgoing_channel_id = some 8;
  incoming_channel_id = some 7;
}

abbrev after_forward : Cache
after_forward = record one_channel {
  channels =
      (
        1,
        (7, record seven { local_balance = 625; remote_balance = 600; num_updates = 1 })
            ∷ (
              8,
              record seven {
                channel_id = 8;
                local_balance = 576;
                remote_balance = 600;
                num_updates = 1;
              },
            )
            ∷ (9, record seven { channel_id = 9 })
            ∷ [],
      )
      ∷ [];
}

forwards : handle codes no_channels 5 (forward_event forwarded) two_channels ≡ returns after_forward
unfolding handle process_broadcasted_event on_forward deliver process write_update_balance
    update_channel apply_balance lookup insert set_channel_state_balance_update_msat
forwards = refl

handle-frame_example : find_channel after_forward 1 9 ≡ find_channel two_channels 1 9
handle-frame_example =
    handle-frame codes no_channels 5 (forward_event forwarded) two_channels after_forward 1 9
      (omega arith) (λ h. ground (arith, h)) forwards

two_found :
    (find_channel two_channels 1 7 ≡ some seven)
    × (find_channel two_channels 1 8 ≡ some (record seven { channel_id = 8 }))
unfolding find_channel lookup
two_found = (refl, refl)

forward_moves_example :
    (c' : Cache) × (handle codes no_channels 5 (forward_event forwarded) two_channels ≡ returns c')
    × ((a' : Settings) × (find_channel c' 1 7 ≡ some a') × (a'.local_balance ≡ 600 + 25000 / 1000))
    × ((b' : Settings) × (find_channel c' 1 8 ≡ some b') × (b'.local_balance + 24000 / 1000 ≡ 600))
forward_moves_example =
    forward_moves codes no_channels 5 two_channels forwarded 7 8 seven
      (record seven { channel_id = 8 }) (omega arith) (omega arith) (omega arith) (omega arith) refl
      refl two_found.0 two_found.1 (omega arith) (omega arith) (omega arith)

abbrev closed_seven : CloseChannelResponse
closed_seven = record {
  req_id = "";
  request = record {
    node_id = 1;
    channel_id = 7;
    force = none;
    target_conf = none;
    delivery_address = none;
    sat_per_vbyte = none;
  };
  status = 100;
  close_pending_channel_point = record { tx_id = []; output_index = 0 };
  close_channel_status = record { closing_tx_id = []; success = true };
}

update_read_back_example :
    (c' : Cache) × (handle codes no_channels 5
        (update_channel_response (answer 1 7 (some 20) none none none none active []))
        one_channel
      ≡ returns c')
    × (process no_channels (get_channel_state 1 7 false) 5 c'
        ≡ returns (c', state (some (record seven { local_fee_rate_milli_msat = 20 }))))
update_read_back_example =
    update_read_back codes no_channels 5 one_channel 1 7 (some 20) none none none none active []
      seven (omega arith) (omega arith) one_is_ready found_seven

update_panics_example :
    (handle codes no_channels 5
        (update_channel_response (answer 1 9 (some 20) none none none none active []))
        one_channel
      ≡ panics)
    ↔ (find_channel one_channel 1 9 ≡ none)
update_panics_example =
    update_panics codes no_channels 5 one_channel 1 9 (some 20) none none none none active []
      (omega arith) (omega arith)

abbrev policy : ChannelPolicy
policy = record {
  disabled = false;
  time_lock_delta = 40;
  min_htlc_msat = 1;
  max_htlc_msat = 1000;
  fee_rate_mill_msat = 10;
  short_channel_id = "";
  fee_base_msat = 1000;
  node_id = 1;
  remote_node_id = 2;
}

abbrev listed_seven : LndChannel
listed_seven = record {
  channel_point = 7 ∷ [];
  remote_pubkey = 2 ∷ [];
  local_balance = 600;
  remote_balance = 400;
  commit_fee = 0;
  commit_weight = 0;
  fee_per_kw = 0;
  num_updates = 0;
  chan_status_flags = "";
  commitment_type = 0;
  lifetime = 0;
  total_satoshis_sent = 0;
  total_satoshis_received = 0;
  pending_htlcs =
      record {
        incoming = false;
        amount = 5;
        hash_lock = [];
        expiration_height = 0;
        htlc_index = 3;
        forwarding_channel = 8;
        forwarding_htlc_index = 4;
      }
      ∷ [];
}

-- The id of a channel is the first byte of its point.
abbrev first_byte : Text → ℕ
first_byte [] = 0
first_byte (b ∷ l) = b

abbrev answers : Answers
answers = record {
  is_locked = false;
  listed = some (listed_seven ∷ []);
  channel_id_of = first_byte;
  node_id_of = first_byte;
  local_policy = λ id. some policy;
  remote_policy = λ id. some policy;
  status = active;
}

abbrev wrapf : Bool → Bool
wrapf e = e

initialize-read_back_example :
    let sent = initialize_channel_balance_from_lnd wrapf 1 answers in
    (sent.1 ≡ false)
    × ((c' : Cache) × (deliver no_channels 5 sent.0 one_channel ≡ returns c')
        × ((ch : LndChannel) → Memᴰ ch (listed_seven ∷ []) → IsCached 1 answers c' ch)
        × ((id : ℕ) → ¬ Memᴰ id (7 ∷ []) → find_channel c' 1 id ≡ none))
initialize-read_back_example =
    initialize-read_back wrapf 1 answers no_channels 5 (listed_seven ∷ []) one_channel (omega arith)
      refl refl ((omega arith, (policy, refl), (policy, refl)), tt) ((λ h. elim h [ ]), tt)

abbrev calm : Round
calm = record { now = 5; answers = answers; before = λ rs. rs; meanwhile = λ rs. rs }

-- The registry as the loop finds it: the service is booted, and all its streams are Pending.
abbrev just_booted : Services
just_booted = now_booted 1 5 (added 1 9 (empty lnd_service))

is_pending : stream_status_of 1 channel_balance_cache_stream just_booted ≡ pending
unfolding lookup insert with_entry same_stream all_streams
is_pending = refl

maintain-IsInStep_example :
    IsInStep 1 (maintain wrapf true 1 (calm ∷ calm ∷ []) (start just_booted)).0
maintain-IsInStep_example =
    maintain-IsInStep wrapf 1 calm (calm ∷ []) just_booted
      ((λ rs. refl, λ rs. refl), ((λ rs. refl, λ rs. refl), tt))

-- LND lists a channel without a known id. The service and all its streams are active.
abbrev unknown : Round
unknown = record calm {
  answers = record answers {
    listed = some (listed_seven ∷ record listed_seven { channel_point = [] } ∷ []);
  };
}

abbrev all_up : Services
all_up = record (empty lnd_service) {
  service_status = (1, active) ∷ [];
  stream_status = (1, map (λ ss. (ss, active)) subscription_streams) ∷ [];
}

still_up :
    (get_channel_balance_cache_stream_status 1 (begin_round true 1 5 (start all_up)).0.services).1
    ≡ active
unfolding get_channel_balance_cache_stream_status begin_round balance_statuses merge_statuses lookup
    with_entry send_stream_event set_stream_status same_stream insert
still_up = refl

unknown_channel-announced_active_example :
    let ended = synchronize_data_from_lnd wrapf true 1 unknown (start all_up) in
    (ended.2 ≡ []) × (ended.0.boot_strapping ≡ false) × (ended.0.service_status ≡ active)
unknown_channel-announced_active_example =
    unknown_channel-announced_active wrapf 1 unknown (start all_up) (listed_seven ∷ [])
      (record listed_seven { channel_point = [] }) [] refl refl
      ((omega arith, (policy, refl), (policy, refl)), tt) refl refl still_up
