-- ===== src/ChannelState/HtlcEvents.antt =====
-- HTLC events on the channel state cache, seen from the channel that they name.
use torq.Prelude.{
  ℕ, ◌/◌, ◌<◌, ◌≡◌, ◌≢◌, inl, inr, true, false, none, some, Option-cases, arith, ◌==◌, nat_eq,
}
use torq.Prelude.Map.{Map, lookup, insert, lookup-insert}
use torq.Words.{word, add64}
use torq.Runtime.{returns}
use torq.Events.{HtlcEvent}
use torq.ChannelCache.Types as ChannelTypes
use torq.ChannelState.Types.{Settings, no_reply, Cache}
use torq.ChannelState.Reads.{find_channel}
use torq.ChannelState.Writes.{put_channels}
use torq.ChannelState.Htlcs.{
  is_pending, apply_incoming, is_ignored, incoming_found, incoming_half, outgoing_half,
  write_update_htlc_event,
}
use torq.ChannelState.Process.{process}
use torq.ChannelState.Clients.{set_channel_state_balance_htlc_event}
use torq.ChannelState.Find.{find-in_node, find-put_channels}
use torq.ChannelState.Pending.{
  apply_incoming_twice, pending-apply_incoming, unsettled-apply_incoming,
}

module _ (channels : ChannelTypes.Cache) (e : HtlcEvent) (ch amt index : ℕ) (node : e.node_id ≢ 0)
    (given : ch ≢ 0) (into : e.incoming_channel_id ≡ some ch) (out : e.outgoing_channel_id ≡ none)
    (amount : e.incoming_amt_msat ≡ some amt) (at : e.incoming_htlc_id ≡ some index) where
  incoming_event :
      (c : Cache) (now : ℕ) (s : Settings)
      → find_channel c e.node_id ch ≡ some s
      → (c' : Cache) × (process channels (set_channel_state_balance_htlc_event e) now c
          ≡ returns (c', no_reply))
        × (find_channel c' e.node_id ch ≡ some (apply_incoming amt index s))
  unfolding process set_channel_state_balance_htlc_event write_update_htlc_event incoming_half
      outgoing_half incoming_found
  incoming_event c now s found = elim (Option-cases (lookup e.node_id c.channels)) [
    | inl absent ↦ absurd (ground (arith, find-in_node c e.node_id ch))
    | inr (m, there) ↦
        let m' : Map ℕ Settings = insert ch (apply_incoming amt index s) m in
        let inside : lookup ch m ≡ some s = ground (arith, find-in_node c e.node_id ch) in
        let taken : is_ignored e ≡ false = rw (into, out) (ground arith) in
        let nonzero : (ch == 0) ≡ false = ground arith in
        (
          put_channels c e.node_id m',
          rw (taken, there, into, out) (rw (nonzero, amount, at, inside)),
          ground (
            arith,
            find-put_channels c e.node_id m' e.node_id ch,
            lookup-insert ch ch (apply_incoming amt index s) m,
          ),
        )
  ]

  -- An event for an HTLC that comes in on a cached channel and goes out on none, handled twice: the
  -- first time the HTLC is pending and the unsettled balance has risen by its amount in satoshis, the
  -- second time the channel's cached state is what it was before.
  pub incoming_event_twice :
      (c : Cache) (now later : ℕ) (s : Settings)
      → find_channel c e.node_id ch ≡ some s
      → is_pending index s.pending_htlcs ≡ false
      → s.unsettled_balance < word
      → (c' c'' : Cache) × (s' : Settings) × (process channels
            (set_channel_state_balance_htlc_event e)
            now
            c
          ≡ returns (c', no_reply))
        × (find_channel c' e.node_id ch ≡ some s')
        × (is_pending index s'.pending_htlcs ≡ true)
        × (s'.unsettled_balance ≡ add64 s.unsettled_balance (amt / 1000))
        × (process channels (set_channel_state_balance_htlc_event e) later c'
            ≡ returns (c'', no_reply))
        × (find_channel c'' e.node_id ch ≡ some s)
  incoming_event_twice c now later s found fresh small =
      let (c', first, there) = incoming_event c now s found in
      let s' : Settings = apply_incoming amt index s in
      let (c'', second, back) = incoming_event c' later s' there in
      (
        c',
        c'',
        s',
        first,
        there,
        pending-apply_incoming amt index s fresh,
        unsettled-apply_incoming amt index s fresh,
        second,
        rw (apply_incoming_twice amt index s fresh small) at back,
      )
