-- ===== src/ChannelState/Tests.antt =====
-- Runs of the channel state cache on small caches, and the theorems at those.
use torq.Prelude.{
  ℕ, ◌-◌, ◌/◌, ltb, ◌≡◌, refl, ◌↔◌, true, false, none, some, List, [], ◌∷◌, ◌++◌, arith, nat_eq,
  if◌then◌else◌,
}
use torq.Prelude.Map.{lookup, insert, delete}
use torq.ChannelState.Writes.{
  index_by_channel, write_initial, write_node_status, update_channel, apply_balance,
  write_update_balance,
}
use torq.Words.{add64}
use torq.Runtime.{returns, blocks}
use torq.Constants.{pending}
use torq.Events.{HtlcEvent}
use torq.ChannelCache.Reads.{channel_setting_of}
use torq.ChannelState.Types.{
  Settings, BalanceState, no_reply, state, balance_state, ignored, all_local_active_channels, Cache,
}
use torq.ChannelState.Reads.{find_channel}
use torq.ChannelState.Htlcs.{
  is_pending, without_htlc, toggle_htlc, apply_incoming, incoming_found, incoming_half,
  outgoing_half, write_update_htlc_event,
}
use torq.ChannelState.Process.{process, empty, Turn, run}
use torq.ChannelState.Clients.{
  zero_htlc_event, get_channel_state, get_channel_balance_states, get_channel_balance_state,
  set_channel_states, set_channel_state_node_status, set_channel_state_balance_update,
  set_channel_state_routing_policy, set_channel_state_balance_htlc_event,
}
use torq.ChannelState.Frame.{process-frame}
use torq.ChannelState.Invariant.{IsWellFormed, run-IsWellFormed}
use torq.ChannelState.Faults.{
  run-get_channel_balance_states, balance_read_ratio, htlc_event_returns,
}
use torq.ChannelState.Balances.{signed, balance_update}
use torq.ChannelState.HtlcEvents.{incoming_event_twice}
use torq.ChannelState.Readiness.{downtime_tolerated, policy_read_back}
use torq.ChannelState.Samples.{
  seven, one_channel, no_channels, known_channels, found_seven, one_is_ready, one_is_active,
}

abbrev incoming : HtlcEvent
incoming = record zero_htlc_event {
  node_id = 1;
  incoming_channel_id = some 7;
  incoming_amt_msat = some 5000;
  incoming_htlc_id = some 3;
}

abbrev boot : List Turn
boot =
    record { message = set_channel_states 1 (seven ∷ []); now = 1; channel_cache = no_channels }
    ∷ record {
      message = set_channel_state_node_status 1 pending;
      now = 2;
      channel_cache = no_channels;
    }
    ∷ record {
      message = set_channel_state_balance_htlc_event incoming;
      now = 3;
      channel_cache = no_channels;
    }
    ∷ []

abbrev booted : Cache
booted = record {
  status = (1, pending) ∷ [];
  channels =
      (
        1,
        (
          7,
          record seven {
            unsettled_balance = 5;
            pending_htlcs =
                record {
                  incoming = true;
                  amount = 5;
                  hash_lock = [];
                  expiration_height = 0;
                  htlc_index = 3;
                  forwarding_channel = 0;
                  forwarding_htlc_index = 0;
                }
                ∷ [];
          },
        )
            ∷ [],
      )
      ∷ [];
  deactivation_time = (1, 2) ∷ [];
}

boot-run : run boot empty ≡ returns (booted, no_reply ∷ no_reply ∷ no_reply ∷ [])
unfolding process run lookup insert delete write_initial index_by_channel write_node_status
    set_channel_states set_channel_state_node_status set_channel_state_balance_htlc_event
    write_update_htlc_event incoming_half incoming_found outgoing_half apply_incoming toggle_htlc
    is_pending without_htlc
boot-run = refl

run-IsWellFormed_example : IsWellFormed booted
unfolding set_channel_states set_channel_state_node_status set_channel_state_balance_htlc_event
run-IsWellFormed_example =
    run-IsWellFormed boot booted (no_reply ∷ no_reply ∷ no_reply ∷ []) ((tt, tt), (tt, (tt, tt)))
      boot-run

abbrev two_channels : Cache
two_channels = record one_channel {
  channels = (1, (7, seven) ∷ (8, record seven { channel_id = 8 }) ∷ []) ∷ [];
}

abbrev after_five : Cache
after_five = record one_channel {
  channels =
      (
        1,
        (7, record seven { local_balance = 605; remote_balance = 600; num_updates = 1 })
            ∷ (8, record seven { channel_id = 8 })
            ∷ [],
      )
      ∷ [];
}

five_received :
    process no_channels (set_channel_state_balance_update 1 7 true 5) 3 two_channels
    ≡ returns (after_five, no_reply)
unfolding process write_update_balance update_channel apply_balance lookup insert
    set_channel_state_balance_update
five_received = refl

process-frame_example : find_channel after_five 1 8 ≡ find_channel two_channels 1 8
unfolding set_channel_state_balance_update
process-frame_example =
    process-frame no_channels (set_channel_state_balance_update 1 7 true 5) 3 two_channels
      after_five no_reply 1 8 (λ h. omega arith) five_received

balance_update_example :
    (c' : Cache) × (s' : Settings) × (process no_channels
        (set_channel_state_balance_update 1 7 false 5)
        3
        one_channel
      ≡ returns (c', no_reply))
    × (find_channel c' 1 7 ≡ some s')
    × (s'.local_balance ≡ add64 600 (signed false 5))
    × (s'.num_updates ≡ add64 0 1)
    × (s'.remote_balance ≡ 600)
    × ((add64 s'.local_balance s'.remote_balance ≡ add64 600 400)
        ↔ (◌≡◌ {A = ℕ} 400 (add64 600 (signed false 5))))
balance_update_example =
    balance_update no_channels one_channel 1 7 3 5 false seven (omega arith) (omega arith)
      (omega arith) (omega arith) found_seven

downtime_tolerated_example :
    (c' : Cache) × (process no_channels (set_channel_state_node_status 1 pending) 2 one_channel
      ≡ returns (c', no_reply))
    × (process no_channels (get_channel_state 1 7 false) 9 c'
        ≡ returns
            (c', state (if ltb (9 - 2) 15_000_000_000 then find_channel one_channel 1 7 else none)))
downtime_tolerated_example =
    downtime_tolerated no_channels one_channel 1 7 2 9 pending (omega arith) (omega arith) (λ e. cc)
      one_is_active

policy_read_back_example :
    (c' : Cache) × (process no_channels
        (set_channel_state_routing_policy 1 7 true true 80 1 2 3 4)
        5
        one_channel
      ≡ returns (c', no_reply))
    × (process no_channels (get_channel_state 1 7 false) 5 c'
        ≡ returns (
          c',
          state (
              some (record seven {
                local_disabled = true;
                local_time_lock_delta = 80;
                local_min_htlc_msat = 1;
                local_max_htlc_msat = 2;
                local_fee_base_msat = 3;
                local_fee_rate_milli_msat = 4;
              })),
        ))
policy_read_back_example =
    policy_read_back no_channels one_channel 1 7 5 true true 80 1 2 3 4 seven (omega arith)
      (omega arith) one_is_ready found_seven

incoming_event_twice_example :
    (c' c'' : Cache) × (s' : Settings) × (process no_channels
        (set_channel_state_balance_htlc_event incoming)
        3
        one_channel
      ≡ returns (c', no_reply))
    × (find_channel c' 1 7 ≡ some s')
    × (is_pending 3 s'.pending_htlcs ≡ true)
    × (s'.unsettled_balance ≡ add64 0 (5000 / 1000))
    × (process no_channels (set_channel_state_balance_htlc_event incoming) 4 c'
        ≡ returns (c'', no_reply))
    × (find_channel c'' 1 7 ≡ some seven)
unfolding is_pending
incoming_event_twice_example =
    incoming_event_twice no_channels incoming 7 5000 3 (omega arith) (omega arith) refl refl refl
      refl one_channel 3 4 seven found_seven refl (omega arith)

htlc_event_returns_example :
    (c' : Cache) × (process no_channels
        (set_channel_state_balance_htlc_event incoming)
        3
        one_channel
      ≡ returns (c', no_reply))
htlc_event_returns_example = htlc_event_returns no_channels one_channel incoming 3 5000 refl

balance_read_ratio_example :
    (b : BalanceState) × (process known_channels
        (get_channel_balance_state 1 7 false ignored)
        5
        one_channel
      ≡ returns (one_channel, balance_state (some b)))
    × (b.local_balance_per_mille_ratio ≡ 0)
    × (b.remote_balance_per_mille_ratio ≡ 0)
unfolding channel_setting_of lookup
balance_read_ratio_example =
    balance_read_ratio known_channels one_channel 1 7 5 false ignored seven (omega arith)
      (omega arith) one_is_ready found_seven (omega arith) (omega arith) (omega arith)

-- The call after the start, and a read after it that is never answered.
abbrev asks : Turn
asks = record {
  message = get_channel_balance_states 1 true all_local_active_channels ignored;
  now = 5;
  channel_cache = known_channels;
}

abbrev waits : Turn
waits = record { message = get_channel_state 1 7 true; now = 6; channel_cache = known_channels }

run-get_channel_balance_states_example : run (boot ++ (asks ∷ waits ∷ [])) empty ≡ blocks
run-get_channel_balance_states_example =
    run-get_channel_balance_states boot (waits ∷ []) asks empty booted
      (no_reply ∷ no_reply ∷ no_reply ∷ []) 1 true all_local_active_channels ignored boot-run refl
