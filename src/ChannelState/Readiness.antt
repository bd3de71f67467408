-- ===== src/ChannelState/Readiness.antt =====
-- What a read of a channel gives after the node's status or the channel's policy was written.
use torq.Prelude.{
  ℕ, ◌-◌, ◌≡◌, ◌∙◌, ◌≢◌, inl, inr, ◌||◌, Bool, true, false, Bool-cases, none, some, arith, ltb,
  ◌==◌, nat_eq, if◌then◌else◌,
}
use torq.Prelude.Map.{lookup, insert, lookup-insert}
use torq.Runtime.{returns}
use torq.Constants.{Status, active, is_active, status_eq}
use torq.ChannelCache.Types as ChannelTypes
use torq.ChannelState.Types.{Settings, Message, no_reply, state, Cache}
use torq.ChannelState.Reads.{is_node_ready, find_channel, read_channel_state}
use torq.ChannelState.Writes.{write_node_status, apply_policy, update_channel, write_routing_policy}
use torq.ChannelState.Process.{process}
use torq.ChannelState.Clients.{
  get_channel_state, set_channel_state_node_status, set_channel_state_routing_policy,
}
use torq.ChannelState.Find.{find-in_node, find-update_channel_self}
use torq.ChannelState.Timed.{SameNodes, update_channel-SameNodes}

-- A read of one channel by its client.
pub read_reply :
    (channels : ChannelTypes.Cache) (c : Cache) (n ch now : ℕ) (force : Bool)
    → n ≢ 0
    → ch ≢ 0
    → process channels (get_channel_state n ch force) now c
      ≡ returns (c, state (if is_node_ready c now n force then find_channel c n ch else none))
unfolding process read_channel_state get_channel_state
read_reply channels c n ch now force nz cz =
    let given : (ch == 0 || n == 0) ≡ false = ground arith in
    elim (Bool-cases (is_node_ready c now n force)) [
      | inl ready ↦ rw (given, ready)
      | inr waits ↦ rw (given, waits)
    ]

-- The cache after an active node went to the status `st` at the time `off`.
abbrev after_down : Cache → ℕ → ℕ → Status → Cache
after_down c n off st = record c {
  status = insert n st c.status;
  deactivation_time = insert n off c.deactivation_time;
}

changed : (st : Status) → st ≢ active → (is_active st ≡ false) × (status_eq st active ≡ false)
changed st ne = ground arith

after_down-ready :
    (c : Cache) (n off now : ℕ) (st : Status)
    → st ≢ active
    → is_node_ready (after_down c n off st) now n false ≡ ltb (now - off) 15_000_000_000
unfolding is_node_ready
after_down-ready c n off now st ne =
    ground (arith, lookup-insert n n st c.status, lookup-insert n n off c.deactivation_time)

-- When an active node's status changes to another one at the time `off`, an unforced read of a
-- channel at the time `now` still gives the cached state for 15 seconds, and nil from then on.
pub downtime_tolerated :
    (channels : ChannelTypes.Cache) (c : Cache) (n ch off now : ℕ) (st : Status)
    → n ≢ 0
    → ch ≢ 0
    → st ≢ active
    → lookup n c.status ≡ some active
    → (c' : Cache) × (process channels (set_channel_state_node_status n st) off c
        ≡ returns (c', no_reply))
      × (process channels (get_channel_state n ch false) now c'
          ≡ returns
              (c', state (if ltb (now - off) 15_000_000_000 then find_channel c n ch else none)))
unfolding process write_node_status set_channel_state_node_status
downtime_tolerated channels c n ch off now st nz cz ne up =
    let given : (n == 0) ≡ false = ground arith in
    let c' : Cache = after_down c n off st in
    let ready : is_node_ready c' now n false ≡ ltb (now - off) 15_000_000_000 =
      after_down-ready c n off now st ne in
    let same : find_channel c' n ch ≡ find_channel c n ch =
      ground (arith, find-in_node c n ch, find-in_node c' n ch) in
    (
      c',
      rw (given, up) (rw ((changed st ne).0, (changed st ne).1)),
      read_reply channels c' n ch now false nz cz ∙ rw (ready, same),
    )

ready-SameNodes :
    (c d : Cache) (now n : ℕ)
    → SameNodes c d
    → is_node_ready c now n false ≡ true
    → is_node_ready d now n false ≡ true
unfolding is_node_ready
ready-SameNodes c d now n same h = rw (same.0, same.1) h

-- A routing policy that is written for a cached channel of a ready node is what a read then gives for
-- that side, with the other side and the balances as they were.
pub policy_read_back :
    (channels : ChannelTypes.Cache) (c : Cache) (n ch now : ℕ) (is_local disabled : Bool)
    (delta min_htlc max_htlc base rate : ℕ) (s : Settings)
    → n ≢ 0
    → ch ≢ 0
    → is_node_ready c now n false ≡ true
    → find_channel c n ch ≡ some s
    → (c' : Cache) × (process channels
          (set_channel_state_routing_policy n ch is_local disabled delta min_htlc max_htlc base
            rate)
          now
          c
        ≡ returns (c', no_reply))
      × (process channels (get_channel_state n ch false) now c'
          ≡ returns (
            c',
            state (
                some (
                  if is_local
                  then record s {
                    local_disabled = disabled;
                    local_time_lock_delta = delta;
                    local_min_htlc_msat = min_htlc;
                    local_max_htlc_msat = max_htlc;
                    local_fee_base_msat = base;
                    local_fee_rate_milli_msat = rate;
                  }
                  else record s {
                    remote_disabled = disabled;
                    remote_time_lock_delta = delta;
                    remote_min_htlc_msat = min_htlc;
                    remote_max_htlc_msat = max_htlc;
                    remote_fee_base_msat = base;
                    remote_fee_rate_milli_msat = rate;
                  })),
          ))
unfolding process write_routing_policy set_channel_state_routing_policy apply_policy
policy_read_back channels c n ch now is_local disabled delta min_htlc max_htlc base rate s nz cz
      ready found =
    let given : (ch == 0 || n == 0) ≡ false = ground arith in
    let m : Message =
      set_channel_state_routing_policy n ch is_local disabled delta min_htlc max_htlc base rate in
    let c' : Cache = update_channel (λ s b. insert ch (apply_policy m s) b) c n ch in
    let there : find_channel c' n ch ≡ some (apply_policy m s) =
      ground (arith, find-update_channel_self (apply_policy m) c n ch) in
    let still : is_node_ready c' now n false ≡ true =
      ready-SameNodes c c' now n
        (update_channel-SameNodes (λ s b. insert ch (apply_policy m s) b) c n ch) ready in
    (c', rw (given, ready), read_reply channels c' n ch now false nz cz ∙ rw (still, there))
