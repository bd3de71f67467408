-- ===== src/Channels/Tests.antt =====
-- Updates of a policy at small requests, and the theorems at those (internal/channels/update_channel.go).
use torq.Prelude.{
  ℕ, ◌≡◌, ◌↔◌, refl, true, false, Option, none, some, List, [], ◌∷◌, String, arith, nat_eq,
}
use torq.Runtime.{Result, ok, returns}
use torq.Constants.{active, opening, cooperative_closed}
use torq.Events.{UpdateChannelRequest, UpdateChannelResponse, OpenChannelResponse, BatchOpenRequest}
use torq.ChannelCache.Types as ChannelTypes
use torq.ChannelState.Types.{Settings, state, Cache}
use torq.ChannelState.Process.{process}
use torq.ChannelState.Clients.{get_channel_state}
use torq.ChannelState.Samples.{seven, one_channel, no_channels, found_seven, one_is_ready}
use torq.BalanceCache.Types.{LndCodes, update_channel_response}
use torq.BalanceCache.Deliver.{state_of, handle}
use torq.BalanceCache.Answers.{answer}
use torq.Channels.Update.{
  chan_point, PolicyUpdateRequest, create_policy_request, process_channel_point, update_channels,
}
use torq.Streams.{update, end_of_file, failure, failed_with}
use torq.Channels.Opening.{
  chan_pending, psbt_fund, process_open_response, translate_chan_point, open_channel_loop,
  zero_request,
}
use torq.Channels.Opened.{open_channel_loop-refused}
use torq.Channels.Closing.{
  close_pending, chan_close, process_close_response, close_channel_resp, zero_close_request,
}
use torq.Channels.Closed.{close_channel_resp-ended}
use torq.Channels.Batch.{LndBatchRequest, check_prepare_req}
use torq.Channels.Accepted.{ArePrepared, IsAcceptable, check_prepare_req_iff}
use torq.Hex.{decode_string}
use torq.Prelude.Text.{Text}
use torq.ShortIds.Text.{decimal}
use torq.Channels.Policy.{IsSound, create_policy_request-IsSound, policy_sent_and_cached}

abbrev codes : LndCodes
codes = record {
  active_channel = 2;
  inactive_channel = 3;
  closed_channel = 1;
  settled = 1;
  succeeded = 2;
  peer_online = 0;
  peer_offline = 1;
}

abbrev known : ℕ → ChannelTypes.Settings
known id = record ChannelTypes.zero_settings {
  channel_id = id;
  funding_transaction_hash = 97 ∷ [];
  funding_output_index = 1;
}

-- A new fee rate for channel 7 and nothing else: the delta comes from the cache.
abbrev new_rate : UpdateChannelRequest
new_rate = (answer 1 7 (some 20) none none none none active []).request

abbrev asked : PolicyUpdateRequest
asked = record {
  scope = chan_point (97 ∷ []) 1;
  base_fee_msat = 0;
  fee_rate_ppm = 20;
  time_lock_delta = 40;
  max_htlc_msat = 0;
  min_htlc_msat = 0;
  min_htlc_msat_specified = false;
}

asks : create_policy_request known (λ n id. some seven) new_rate ≡ ok asked
unfolding create_policy_request process_channel_point
asks = refl

create_policy_request-IsSound_example : IsSound new_rate asked
create_policy_request-IsSound_example =
    create_policy_request-IsSound new_rate known (λ n id. some seven) asked asks

abbrev refuses : PolicyUpdateRequest → Result (List String)
refuses p = ok ("refused" ∷ [])

-- A delta of 10 is raised to 18 for LND, which refuses the update, and the cache has 10.
policy_sent_and_cached_example :
    let r = (answer 1 7 none none none none (some 10) active []).request in
    (p : PolicyUpdateRequest) × (a : UpdateChannelResponse) × (create_policy_request known
        (state_of no_channels 5 one_channel)
        r
      ≡ ok p)
    × (update_channels known (state_of no_channels 5 one_channel) refuses true r ≡ ok (a, a ∷ []))
    × (p.time_lock_delta ≡ 18)
    × (p.fee_rate_ppm ≡ 0)
    × (p.base_fee_msat ≡ 0)
    × ((c' : Cache) × (s' : Settings) × (handle codes no_channels 5
            (update_channel_response a)
            one_channel
          ≡ returns c')
        × (process no_channels (get_channel_state 1 7 false) 5 c' ≡ returns (c', state (some s')))
        × (s'.local_time_lock_delta ≡ 10)
        × (s'.local_fee_rate_milli_msat ≡ 10)
        × (s'.local_fee_base_msat ≡ 1000))
policy_sent_and_cached_example =
    policy_sent_and_cached codes no_channels 5 one_channel known refuses ("refused" ∷ []) 1 7 10
      none none none none seven (omega arith) (omega arith) one_is_ready found_seven (λ p. refl)

-- A chain hash has two bytes here.
abbrev short_hash : List ℕ → Option Text
short_hash (a ∷ b ∷ []) = some (a ∷ b ∷ [])
short_hash _ = none

abbrev pending : OpenChannelResponse
pending = record {
  req_id = "1";
  request = zero_request;
  status = opening;
  channel_point = [];
  pending_channel_point = 97 ∷ 98 ∷ 58 ∷ 48 ∷ [];
}

pends :
    process_open_response short_hash zero_request "1" (chan_pending (97 ∷ 98 ∷ []) 0) ≡ ok pending
unfolding process_open_response translate_chan_point decimal
pends = refl

open_channel_loop-refused_example :
    open_channel_loop short_hash zero_request "1" true
      (update (chan_pending (97 ∷ 98 ∷ []) 0) ∷ update psbt_fund ∷ end_of_file ∷ [])
    ≡ (failed_with "Processing open response", pending ∷ [])
open_channel_loop-refused_example =
    open_channel_loop-refused short_hash zero_request "1" (chan_pending (97 ∷ 98 ∷ []) 0 ∷ [])
      (pending ∷ []) psbt_fund (end_of_file ∷ []) (pends, tt) tt

-- A close that fails after it was pending, on a stream that ends with an error.
close_channel_resp-ended_example :
    let r = zero_close_request in
    (close_channel_resp r "1" true
        (update (close_pending (97 ∷ []) 0) ∷ update (chan_close (98 ∷ []) false) ∷ failure tt ∷ [])
      ≡ (
        failed_with "Close channel request receive",
        process_close_response r "1" (close_pending (97 ∷ []) 0)
            ∷ process_close_response r "1" (chan_close (98 ∷ []) false)
            ∷ [],
      ))
    × (process_close_response r "1" (chan_close (98 ∷ []) false)
        ≡ record (process_close_response r "1" (chan_close (98 ∷ []) true)) {
          close_channel_status = record { closing_tx_id = 98 ∷ []; success = false };
        })
    × ((process_close_response r "1" (chan_close (98 ∷ []) false)).status ≡ cooperative_closed)
close_channel_resp-ended_example =
    close_channel_resp-ended zero_close_request "1" true
      (close_pending (97 ∷ []) 0 ∷ chan_close (98 ∷ []) false ∷ []) (some tt) [] (98 ∷ []) false

abbrev batch : BatchOpenRequest
batch = record {
  node_id = 1;
  channels =
      record {
        node_pubkey = 48 ∷ 50 ∷ [];
        local_funding_amount = 20000;
        push_sat = none;
        is_private = some true;
        min_htlc_msat = none;
      }
      ∷ [];
  target_conf = none;
  sat_per_vbyte = some 3;
}

decoded : decode_string (48 ∷ 50 ∷ []) ≡ some (2 ∷ [])
unfolding decode_string
decoded = refl

acceptable : IsAcceptable batch
acceptable = (omega arith, λ e. cc, refl, ((2 ∷ [], decoded, omega arith), tt))

check_prepare_req_iff_example :
    ((q : LndBatchRequest) × (check_prepare_req batch ≡ ok q)
      × ArePrepared batch.channels q.channels
      × (q.sat_per_vbyte ≡ 3)
      × (q.target_conf ≡ 0))
    ↔ IsAcceptable batch
check_prepare_req_iff_example = check_prepare_req_iff batch

batch_accepted : (q : LndBatchRequest) × (check_prepare_req batch ≡ ok q)
batch_accepted = let (q, h, _, _, _) = check_prepare_req_iff_example.1 acceptable in (q, h)
