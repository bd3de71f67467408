-- ===== src/Channels/Policy.antt =====
-- The policy that LND is asked to set, and the one that the channel state cache then holds
-- (internal/channels/update_channel.go, pkg/lnd/channelBalanceCache.go).
use torq.Prelude.{
  ℕ, ltb, ◌≤◌, ◌≡◌, refl, ap, ◌∙◌, ◌≢◌, ◌↔◌, true, false, Bool-cases, inl, inr, Option, none, some,
  List, [], ◌∷◌, String, map, arith, ◌==◌, nat_eq, if◌then◌else◌, subst,
}
use torq.Runtime.{Result, ok, OnOk, returns}
use torq.Constants.{inactive, active}
use torq.Events.{UpdateChannelRequest, UpdateChannelResponse}
use torq.ChannelCache.Types as ChannelTypes
use torq.ChannelState.Types.{Settings, state, Cache}
use torq.ChannelState.Reads.{is_node_ready, find_channel}
use torq.ChannelState.Process.{process}
use torq.ChannelState.Clients.{get_channel_state}
use torq.BalanceCache.Types.{LndCodes, update_channel_response}
use torq.BalanceCache.Dispatch.{is_missing, or_current}
use torq.BalanceCache.Deliver.{state_of, handle}
use torq.BalanceCache.Answers.{answer, update_read_back}
use torq.Channels.Update.{
  global, PolicyUpdateRequest, uint32, or_zero, process_channel_point, delta_or_state,
  policy_request, request_by_channel, create_policy_request, failed_request, is_empty,
  process_update_response, is_given, update_channels,
}

-- What holds of a request to LND.
abbrev pub IsSound : UpdateChannelRequest → PolicyUpdateRequest → Type 0
IsSound r p =
    (18 ≤ p.time_lock_delta)
    × (r.node_id ≢ 0)
    × ((p.scope ≡ global) ↔ (is_missing r.channel_id ≡ true))

at_least_18 : (d : ℕ) → 18 ≤ (if ltb d 18 then 18 else d)
at_least_18 d = ground arith

policy_request_global-IsSound :
    (r : UpdateChannelRequest) (delta : Option ℕ)
    → r.node_id ≢ 0
    → is_missing r.channel_id ≡ true
    → OnOk (IsSound r) (policy_request r global delta)
policy_request_global-IsSound r none nz missing = tt
policy_request_global-IsSound r (some d) nz missing = (at_least_18 d, nz, (λ _. missing, λ _. refl))

policy_request-IsSound :
    (r : UpdateChannelRequest) (s : ChannelTypes.Settings) (delta : Option ℕ)
    → r.node_id ≢ 0
    → is_missing r.channel_id ≡ false
    → OnOk (IsSound r) (policy_request r (process_channel_point s) delta)
unfolding process_channel_point
policy_request-IsSound r s none nz given = tt
policy_request-IsSound r s (some d) nz given = (at_least_18 d, nz, (λ e. cc, λ e. cc))

request_by_channel-IsSound :
    (r : UpdateChannelRequest) (setting : ℕ → ChannelTypes.Settings)
    (current : ℕ → ℕ → Option Settings) (o : Option ℕ)
    → r.channel_id ≡ o
    → r.node_id ≢ 0
    → OnOk (IsSound r) (request_by_channel r setting current o)
request_by_channel-IsSound r setting current none e nz =
    policy_request_global-IsSound r r.time_lock_delta nz (ap is_missing e)
request_by_channel-IsSound r setting current (some id) e nz = elim (Bool-cases (id == 0)) [
  | inl zero_id ↦
      rw zero_id (policy_request_global-IsSound r r.time_lock_delta nz (ap is_missing e ∙ zero_id))
  | inr given ↦ rw given (
      policy_request-IsSound r (setting id)
        (delta_or_state r.time_lock_delta (current r.node_id id)) nz (ap is_missing e ∙ given))
]

create_policy_request-OnOk :
    (r : UpdateChannelRequest) (setting : ℕ → ChannelTypes.Settings)
    (current : ℕ → ℕ → Option Settings)
    → OnOk (IsSound r) (create_policy_request setting current r)
unfolding create_policy_request
create_policy_request-OnOk r setting current = elim (Bool-cases (r.node_id == 0)) [
  | inl none_given ↦ rw none_given tt
  | inr given ↦
      let nz : r.node_id ≢ 0 = ground arith in
      rw given (request_by_channel-IsSound r setting current r.channel_id refl nz)
]

-- Every policy request that is made has a time lock delta of 18 at least and comes from a request
-- with a node. It is for all channels of the node exactly where the request names no channel, or the
-- channel 0.
pub create_policy_request-IsSound :
    (r : UpdateChannelRequest) (setting : ℕ → ChannelTypes.Settings)
    (current : ℕ → ℕ → Option Settings) (p : PolicyUpdateRequest)
    → create_policy_request setting current r ≡ ok p
    → IsSound r p
create_policy_request-IsSound r setting current p h =
    subst (OnOk (IsSound r)) h (create_policy_request-OnOk r setting current)

-- A request for the policy of a cached channel of a ready node, with a time lock delta `d`, that LND
-- takes: LND is asked for `d` or for 18, whichever is more, for 0 where the request has no fee rate or
-- base fee, and the channel state cache then has `d` and keeps the fees that the request leaves out.
-- Both hold whether LND reports failed updates or not.
pub policy_sent_and_cached :
    (l : LndCodes) (channels : ChannelTypes.Cache) (now : ℕ) (c : Cache)
    (setting : ℕ → ChannelTypes.Settings) (lnd : PolicyUpdateRequest → Result (List String))
    (failed : List String) (n ch d : ℕ) (rate base max_htlc min_htlc : Option ℕ) (s : Settings)
    → n ≢ 0
    → ch ≢ 0
    → is_node_ready c now n false ≡ true
    → find_channel c n ch ≡ some s
    → ((p : PolicyUpdateRequest) → lnd p ≡ ok failed)
    → let r = (answer n ch rate base max_htlc min_htlc (some d) active []).request in
      (p : PolicyUpdateRequest) × (a : UpdateChannelResponse) × (create_policy_request setting
          (state_of channels now c)
          r
        ≡ ok p)
      × (update_channels setting (state_of channels now c) lnd true r ≡ ok (a, a ∷ []))
      × (p.time_lock_delta ≡ (if ltb d 18 then 18 else d))
      × (p.fee_rate_ppm ≡ uint32 (or_zero rate))
      × (p.base_fee_msat ≡ or_zero base)
      × ((c' : Cache) × (s' : Settings) × (handle l channels now (update_channel_response a) c
            ≡ returns c')
          × (process channels (get_channel_state n ch false) now c' ≡ returns (c', state (some s')))
          × (s'.local_time_lock_delta ≡ d)
          × (s'.local_fee_rate_milli_msat ≡ or_current rate s.local_fee_rate_milli_msat)
          × (s'.local_fee_base_msat ≡ or_current base s.local_fee_base_msat))
unfolding create_policy_request update_channels process_update_response
policy_sent_and_cached l channels now c setting lnd failed n ch d rate base max_htlc min_htlc s nz
      cz ready found accepts =
    let r = (answer n ch rate base max_htlc min_htlc (some d) active []).request in
    let status = if is_empty failed then active else inactive in
    let a : UpdateChannelResponse =
      answer n ch rate base max_htlc min_htlc (some d) status (map failed_request failed) in
    let p : PolicyUpdateRequest = record {
      scope = process_channel_point (setting ch);
      base_fee_msat = or_zero base;
      fee_rate_ppm = uint32 (or_zero rate);
      time_lock_delta = if ltb d 18 then 18 else d;
      max_htlc_msat = or_zero max_htlc;
      min_htlc_msat = or_zero min_htlc;
      min_htlc_msat_specified = is_given min_htlc;
    } in
    let no_node : (n == 0) ≡ false = ground arith in
    let no_channel : (ch == 0) ≡ false = ground arith in
    let (c', handled, read) =
      update_read_back l channels now c n ch rate base max_htlc min_htlc (some d) status
        (map failed_request failed) s nz cz ready found in
    (
      p,
      a,
      rw (no_node, no_channel),
      rw (no_node, no_channel, accepts p),
      refl,
      refl,
      refl,
      (c', _, handled, read, refl, refl, refl),
    )
