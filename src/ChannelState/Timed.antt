-- ===== src/ChannelState/Timed.antt =====
-- Deactivation times in the channel state cache.
use torq.Prelude.{
  ℕ, ◌≡◌, refl, sym, ◌≢◌, inl, inr, Bool-cases, subst, some, Option-cases, arith, ◌==◌, nat_eq,
}
use torq.Prelude.Map.{Map, lookup, insert, lookup-insert}
use torq.Runtime.{Outcome, returns, panics, blocks, ◌>>=◌}
use torq.Constants.{Status, active, is_active}
use torq.Events.{HtlcEvent}
use torq.ChannelCache.Types as ChannelTypes
use torq.ChannelState.Types.{
  OperationType, read_channelstate, read_all_channelstates, read_channelbalancestate,
  read_all_channelbalancestates, write_initial_channelstates, write_channelstate_nodestatus,
  write_channelstate_channelstatus, write_channelstate_routingpolicy,
  write_channelstate_updatebalance, write_channelstate_updatehtlcevent, Settings, Message, Reply,
  Cache,
}
use torq.ChannelState.Writes.{
  write_initial, replace_status, write_node_status, apply_channel_status, apply_policy,
  apply_balance, put_channels, update_channel, write_channel_status, write_routing_policy,
  write_update_balance,
}
use torq.ChannelState.Htlcs.{is_ignored, incoming_half, outgoing_half, write_update_htlc_event}
use torq.ChannelState.Process.{dispatch}
use torq.ChannelState.Frame.{replying-eq, written-eq}

-- Every node that is known not to be active has a deactivation time.
abbrev pub IsTimed : Cache → Type 0
IsTimed c =
    (n : ℕ) (st : Status)
    → lookup n c.status ≡ some st
    → st ≢ active
    → (t : ℕ) × (lookup n c.deactivation_time ≡ some t)

-- The two maps about nodes are the same.
abbrev pub SameNodes : Cache → Cache → Type 0
SameNodes c d = (d.status ≡ c.status) × (d.deactivation_time ≡ c.deactivation_time)

SameNodes-IsTimed : (c d : Cache) → SameNodes c d → IsTimed c → IsTimed d
SameNodes-IsTimed c d same timed n st h ne =
    let (t, q) = timed n st (rw same.0 at h) ne in (t, rw same.1 q)

pub update_channel-SameNodes :
    (f : Settings → Map ℕ Settings → Map ℕ Settings) (c : Cache) (n ch : ℕ)
    → SameNodes c (update_channel f c n ch)
unfolding update_channel
update_channel-SameNodes f c n ch = elim (Option-cases (lookup n c.channels)) [
  | inl e ↦ rw e (refl, refl)
  | inr (m, e) ↦ elim (Option-cases (lookup ch m)) [
    | inl absent ↦ rw (e, absent) (refl, refl)
    | inr (s, found) ↦ rw (e, found) (refl, refl)
  ]
]

put_result-SameNodes :
    (c c' : Cache) (n : ℕ) (o : Outcome (Map ℕ Settings))
    → (o >>= λ m. returns (put_channels c n m)) ≡ returns c'
    → SameNodes c c'
put_result-SameNodes c c' n (returns m) h = ground arith
put_result-SameNodes c c' n panics h = cc
put_result-SameNodes c c' n blocks h = cc

htlc-SameNodes :
    (e : HtlcEvent) (c c' : Cache) → write_update_htlc_event e c ≡ returns c' → SameNodes c c'
unfolding write_update_htlc_event
htlc-SameNodes e c c' h = elim (Bool-cases (is_ignored e)) [
  | inl ignored ↦ ground arith
  | inr taken ↦ elim (Option-cases (lookup e.node_id c.channels)) [
    | inl absent ↦ ground arith
    | inr (m, found) ↦
        put_result-SameNodes c c' e.node_id
          (outgoing_half e e.outgoing_channel_id (incoming_half e e.incoming_channel_id m))
          (rw (taken, found) at h)
  ]
]

-- The branch for a node whose status was known.
replace_status-IsTimed :
    (m : Message) (now : ℕ) (c : Cache) (n : ℕ) (st current : Status)
    → lookup m.node_id c.status ≡ some current
    → IsTimed c
    → lookup n (replace_status m now current c).status ≡ some st
    → st ≢ active
    → (t : ℕ) × (lookup n (replace_status m now current c).deactivation_time ≡ some t)
replace_status-IsTimed m now c n st current known timed h ne = elim (Bool-cases (m.node_id == n)) [
  | inr other ↦
      let (t, q) = timed n st (ground (arith, lookup-insert m.node_id n m.status c.status)) ne in
      (t, ground (arith, lookup-insert m.node_id n now c.deactivation_time))
  | inl here ↦ elim (Bool-cases (is_active m.status)) [
    | inl up ↦ absurd (ground (arith, lookup-insert m.node_id n m.status c.status))
    | inr down ↦ elim (Bool-cases (is_active current)) [
      | inl was_up ↦ (now, ground (arith, lookup-insert m.node_id n now c.deactivation_time))
      | inr was_down ↦
          let (t, q) = timed n current (ground arith) (ground arith) in (t, ground arith)
    ]
  ]
]

write_node_status-IsTimed :
    (m : Message) (now : ℕ) (c : Cache) → IsTimed c → IsTimed (write_node_status m now c)
unfolding write_node_status
write_node_status-IsTimed m now c timed n st h ne = elim (Bool-cases (m.node_id == 0)) [
  | inl zero ↦ let (t, q) = timed n st (ground arith) ne in (t, ground arith)
  | inr given ↦ elim (Option-cases (lookup m.node_id c.status)) [
    | inl unknown ↦ elim (Bool-cases (m.node_id == n)) [
      | inl here ↦ (
        now,
        rw (given, unknown) (ground (arith, lookup-insert m.node_id n now c.deactivation_time)),
      )
      | inr other ↦
          let (t, q) =
            timed n st (ground (arith, lookup-insert m.node_id n m.status c.status)) ne in
          (
            t,
            rw (given, unknown) (ground (arith, lookup-insert m.node_id n now c.deactivation_time)),
          )
    ]
    | inr (current, known) ↦
        rw (given, known)
          (replace_status-IsTimed m now c n st current known timed (rw (given, known) at h) ne)
  ]
]

write_initial-SameNodes : (m : Message) (c : Cache) → SameNodes c (write_initial m c)
unfolding write_initial
write_initial-SameNodes m c = ground arith

pub write_channel_status-SameNodes :
    (m : Message) (now : ℕ) (c : Cache) → SameNodes c (write_channel_status m now c)
unfolding write_channel_status
write_channel_status-SameNodes m now c =
    let f = apply_channel_status m.status m.channel_id in
    let same = update_channel-SameNodes f c m.node_id m.channel_id in ground arith

pub write_routing_policy-SameNodes :
    (m : Message) (now : ℕ) (c : Cache) → SameNodes c (write_routing_policy m now c)
unfolding write_routing_policy
write_routing_policy-SameNodes m now c =
    let same =
      update_channel-SameNodes (λ s b. insert m.channel_id (apply_policy m s) b) c m.node_id
        m.channel_id in
    ground arith

pub write_update_balance-SameNodes :
    (m : Message) (c : Cache) → SameNodes c (write_update_balance m c)
unfolding write_update_balance
write_update_balance-SameNodes m c =
    let same =
      update_channel-SameNodes (λ s b. insert m.channel_id (apply_balance m.amount s) b) c m.node_id
        m.channel_id in
    ground arith

pub dispatch-IsTimed :
    (op : OperationType) (channels : ChannelTypes.Cache) (m : Message) (now : ℕ) (c c' : Cache)
    (r : Reply)
    → IsTimed c
    → dispatch op channels m now c ≡ returns (c', r)
    → IsTimed c'
unfolding dispatch
dispatch-IsTimed read_channelstate channels m now c c' r timed h =
    subst IsTimed (sym (replying-eq c c' _ r h)) timed
dispatch-IsTimed read_all_channelstates channels m now c c' r timed h =
    subst IsTimed (sym (replying-eq c c' _ r h)) timed
dispatch-IsTimed read_channelbalancestate channels m now c c' r timed h =
    subst IsTimed (sym (replying-eq c c' _ r h)) timed
dispatch-IsTimed read_all_channelbalancestates channels m now c c' r timed h =
    subst IsTimed (sym (replying-eq c c' _ r h)) timed
dispatch-IsTimed write_channelstate_nodestatus channels m now c c' r timed h =
    let e : write_node_status m now c ≡ c' = ground arith in
    subst IsTimed e (write_node_status-IsTimed m now c timed)
dispatch-IsTimed write_channelstate_updatehtlcevent channels m now c c' r timed h =
    let (d, q, e) = written-eq (write_update_htlc_event m.htlc_event c) c' r h in
    subst IsTimed e (SameNodes-IsTimed c d (htlc-SameNodes m.htlc_event c d q) timed)
dispatch-IsTimed write_initial_channelstates channels m now c c' r timed h =
    let e : write_initial m c ≡ c' = ground arith in
    subst IsTimed e (SameNodes-IsTimed c (write_initial m c) (write_initial-SameNodes m c) timed)
dispatch-IsTimed write_channelstate_channelstatus channels m now c c' r timed h =
    let e : write_channel_status m now c ≡ c' = ground arith in
    subst IsTimed e (
      SameNodes-IsTimed c (write_channel_status m now c) (write_channel_status-SameNodes m now c)
        timed)
dispatch-IsTimed write_channelstate_routingpolicy channels m now c c' r timed h =
    let e : write_routing_policy m now c ≡ c' = ground arith in
    subst IsTimed e (
      SameNodes-IsTimed c (write_routing_policy m now c) (write_routing_policy-SameNodes m now c)
        timed)
dispatch-IsTimed write_channelstate_updatebalance channels m now c c' r timed h =
    let e : write_update_balance m c ≡ c' = ground arith in
    subst IsTimed e
      (SameNodes-IsTimed c (write_update_balance m c) (write_update_balance-SameNodes m c) timed)
