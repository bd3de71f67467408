-- ===== src/BalanceCache/Answers.antt =====
-- What the answers to requests on a channel do to the channel state cache
-- (pkg/lnd/channelBalanceCache.go).
use torq.Prelude.{
  ℕ, ◌≡◌, refl, ap, ◌∙◌, ◌≢◌, ◌↔◌, inl, inr, true, false, Bool-cases, ◌||◌, Option, none, some,
  Option-cases, List, arith, ◌==◌, nat_eq,
}
use torq.Runtime.{returns, panics}
use torq.Constants.{Status}
use torq.Events.{FailedRequest, CloseChannelResponse, UpdateChannelRequest, UpdateChannelResponse}
use torq.ChannelCache.Types as ChannelTypes
use torq.ChannelState.Types.{Settings, no_reply, state, Cache}
use torq.ChannelState.Reads.{is_node_ready, find_channel}
use torq.ChannelState.Writes.{write_channel_status, write_routing_policy}
use torq.ChannelState.Process.{dispatch, process}
use torq.ChannelState.Clients.{
  get_channel_state, set_channel_state_channel_status, set_channel_state_routing_policy,
}
use torq.ChannelState.Readiness.{read_reply, policy_read_back}
use torq.BalanceCache.Types.{LndCodes, close_channel_response, update_channel_response}
use torq.BalanceCache.Dispatch.{
  or_current, merged_policy, on_close, on_update, process_broadcasted_event,
}
use torq.BalanceCache.Deliver.{answered_state, state_of, deliver, handle}

-- The answer to a close request changes nothing, whatever channel was closed: the branch writes the
-- status of the channel 0 of the node 0, which the cache refuses.
pub close_response-unchanged :
    (l : LndCodes) (channels : ChannelTypes.Cache) (now : ℕ) (e : CloseChannelResponse) (c : Cache)
    → handle l channels now (close_channel_response e) c ≡ returns c
unfolding handle process_broadcasted_event on_close deliver process dispatch write_channel_status
    set_channel_state_channel_status
close_response-unchanged l channels now e c = elim (Bool-cases (e.request.node_id == 0)) [
  | inl empty ↦ rw empty
  | inr given ↦ rw given
]

-- An answer with a node and a channel, and the values that its request sets.
abbrev pub answer :
    (n ch : ℕ) (rate base max_htlc min_htlc delta : Option ℕ)
    → Status
    → List FailedRequest
    → UpdateChannelResponse
answer n ch rate base max_htlc min_htlc delta status failed = record {
  request = record {
    node_id = n;
    channel_id = some ch;
    fee_rate_milli_msat = rate;
    fee_base_msat = base;
    max_htlc_msat = max_htlc;
    min_htlc_msat = min_htlc;
    time_lock_delta = delta;
  };
  status = status;
  failed_updates = failed;
}

forced : (c : Cache) (now n : ℕ) → is_node_ready c now n true ≡ true
unfolding is_node_ready
forced c now n = ground arith

-- A forced read gives what is cached.
state_of-eq :
    (channels : ChannelTypes.Cache) (now : ℕ) (c : Cache) (n ch : ℕ)
    → n ≢ 0
    → ch ≢ 0
    → state_of channels now c n ch ≡ find_channel c n ch
state_of-eq channels now c n ch nz cz =
    ap answered_state (read_reply channels c n ch now true nz cz) ∙ rw (forced c now n)

-- The write that such an answer leads to is handled.
policy_written :
    (channels : ChannelTypes.Cache) (r : UpdateChannelRequest) (ch now : ℕ) (s : Settings)
    (c : Cache)
    → process channels (merged_policy r ch s) now c
      ≡ returns (write_routing_policy (merged_policy r ch s) now c, no_reply)
unfolding process dispatch set_channel_state_routing_policy
policy_written channels r ch now s c = refl

module _ (l : LndCodes) (channels : ChannelTypes.Cache) (now : ℕ) (c : Cache) where
  module _ (n ch : ℕ) (rate base max_htlc min_htlc delta : Option ℕ) where
    -- The answer to an update of the policy of a cached channel of a ready node: a read of the channel
    -- then gives the values that the request set, the cached ones where it set none, and everything
    -- else as it was, the other side's policy, the balances and the disabled flag included.
    pub update_read_back :
        (status : Status) (failed : List FailedRequest) (s : Settings)
        → n ≢ 0
        → ch ≢ 0
        → is_node_ready c now n false ≡ true
        → find_channel c n ch ≡ some s
        → (c' : Cache) × (handle l channels now
              (update_channel_response
                (answer n ch rate base max_htlc min_htlc delta status failed))
              c
            ≡ returns c')
          × (process channels (get_channel_state n ch false) now c'
              ≡ returns (
                c',
                state (
                    some (record s {
                      local_time_lock_delta = or_current delta s.local_time_lock_delta;
                      local_min_htlc_msat = or_current min_htlc s.local_min_htlc_msat;
                      local_max_htlc_msat = or_current max_htlc s.local_max_htlc_msat;
                      local_fee_base_msat = or_current base s.local_fee_base_msat;
                      local_fee_rate_milli_msat = or_current rate s.local_fee_rate_milli_msat;
                    })),
              ))
    unfolding handle process_broadcasted_event on_update deliver
    update_read_back status failed s nz cz ready found =
        let given : (n == 0 || ch == 0) ≡ false = ground arith in
        let (c', written, read) =
          policy_read_back channels c n ch now true s.local_disabled
            (or_current delta s.local_time_lock_delta) (or_current min_htlc s.local_min_htlc_msat)
            (or_current max_htlc s.local_max_htlc_msat) (or_current base s.local_fee_base_msat)
            (or_current rate s.local_fee_rate_milli_msat) s nz cz ready found in
        (c', rw (given, state_of-eq channels now c n ch nz cz, found, written), read)

    -- The answer to an update of the policy of a channel panics exactly where the channel is not
    -- cached.
    pub update_panics :
        (status : Status) (failed : List FailedRequest)
        → n ≢ 0
        → ch ≢ 0
        → (handle l channels now
              (update_channel_response
                (answer n ch rate base max_htlc min_htlc delta status failed))
              c
            ≡ panics)
          ↔ (find_channel c n ch ≡ none)
    unfolding handle process_broadcasted_event on_update deliver
    update_panics status failed nz cz =
        let given : (n == 0 || ch == 0) ≡ false = ground arith in
        elim (Option-cases (find_channel c n ch)) [
          | inl absent ↦
              rw (given, state_of-eq channels now c n ch nz cz, absent) (λ _. refl, λ _. refl)
          | inr (s, found) ↦
              rw
                (
                  given,
                  state_of-eq channels now c n ch nz cz,
                  found,
                  policy_written channels _ ch now s c,
                )
                (λ h. cc, λ h. cc)
        ]
