-- ===== src/ChannelState/Htlcs.antt =====
-- WRITE_CHANNELSTATE_UPDATEHTLCEVENT of pkg/commons/managedChannelState.go: an event opens a
-- pending HTLC on its channel, or closes the one that is pending under its index.
use torq.Prelude.{
  ℕ, ◌/◌, Bool, true, false, ◌&&◌, ◌||◌, Option, none, some, List, [], ◌∷◌, ◌++◌, ◌==◌, ◌!=◌,
  nat_eq, any, select, if◌then◌else◌,
}
use torq.Prelude.Map.{Map, lookup, insert}
use torq.Words.{add64, sub64}
use torq.Runtime.{Outcome, returns, panics, ◌>>=◌}
use torq.Events.{HtlcEvent}
use torq.ChannelState.Types.{Htlc, Settings, Cache}
use torq.ChannelState.Writes.{put_channels}

-- `foundIt` of the loop over the pending HTLCs, and the list that the loop builds.
unfoldable pub is_pending : ℕ → List Htlc → Bool
unfolding any
is_pending index l = any (λ h. h.htlc_index == index) l

unfoldable pub without_htlc : ℕ → List Htlc → List Htlc
unfolding select
without_htlc index l = select (λ h. h.htlc_index != index) l

abbrev pub new_htlc : Bool → ℕ → ℕ → Htlc
new_htlc incoming amount index = record {
  incoming = incoming;
  amount = amount;
  hash_lock = [];
  expiration_height = 0;
  htlc_index = index;
  forwarding_channel = 0;
  forwarding_htlc_index = 0;
}

-- The pending list after an event for an HTLC: it is dropped if it was there, and added if not.
unfoldable pub toggle_htlc : Bool → ℕ → ℕ → List Htlc → List Htlc
toggle_htlc incoming amount index l =
    if is_pending index l
    then without_htlc index l
    else without_htlc index l ++ new_htlc incoming amount index ∷ []

unfoldable pub apply_incoming : ℕ → ℕ → Settings → Settings
apply_incoming amt_msat index s = record s {
  unsettled_balance =
      if is_pending index s.pending_htlcs
      then sub64 s.unsettled_balance (amt_msat / 1000)
      else add64 s.unsettled_balance (amt_msat / 1000);
  pending_htlcs = toggle_htlc true (amt_msat / 1000) index s.pending_htlcs;
}

-- The unsettled balance moves by the incoming amount, as the source has it.
unfoldable pub apply_outgoing : ℕ → ℕ → ℕ → Settings → Settings
apply_outgoing incoming_amt_msat amt_msat index s = record s {
  unsettled_balance =
      if is_pending index s.pending_htlcs
      then add64 s.unsettled_balance (incoming_amt_msat / 1000)
      else sub64 s.unsettled_balance (incoming_amt_msat / 1000);
  pending_htlcs = toggle_htlc false (amt_msat / 1000) index s.pending_htlcs;
}

abbrev pub is_empty_id : Option ℕ → Bool
is_empty_id none = true
is_empty_id (some id) = id == 0

-- The incoming half, for a channel id that is there: settings, amount and index are looked at.
unfoldable pub incoming_found :
    ℕ → Option ℕ → Option ℕ → Option Settings → Map ℕ Settings → Map ℕ Settings
incoming_found id (some amt) (some index) (some s) m = insert id (apply_incoming amt index s) m
incoming_found id _ _ _ m = m

unfoldable pub incoming_half : HtlcEvent → Option ℕ → Map ℕ Settings → Map ℕ Settings
incoming_half e none m = m
incoming_half e (some id) m =
    if id == 0 then m else incoming_found id e.incoming_amt_msat e.incoming_htlc_id (lookup id m) m

-- `*managedChannelState.HtlcEvent.IncomingAmtMsat` panics where the pointer is nil.
abbrev pub outgoing_written :
    ℕ → Option ℕ → ℕ → ℕ → Settings → Map ℕ Settings → Outcome (Map ℕ Settings)
outgoing_written id none amt index s m = panics
outgoing_written id (some incoming_amt) amt index s m =
    returns (insert id (apply_outgoing incoming_amt amt index s) m)

unfoldable pub outgoing_found :
    ℕ → Option ℕ → Option ℕ → Option ℕ → Option Settings → Map ℕ Settings → Outcome (Map ℕ Settings)
outgoing_found id incoming_amt (some amt) (some index) (some s) m =
    outgoing_written id incoming_amt amt index s m
outgoing_found id incoming_amt _ _ _ m = returns m

unfoldable pub outgoing_half : HtlcEvent → Option ℕ → Map ℕ Settings → Outcome (Map ℕ Settings)
outgoing_half e none m = returns m
outgoing_half e (some id) m =
    if id == 0
    then returns m
    else outgoing_found id e.incoming_amt_msat e.outgoing_amt_msat e.outgoing_htlc_id (lookup id m)
        m

abbrev pub htlc_node : HtlcEvent → Cache → Option (Map ℕ Settings) → Outcome Cache
htlc_node e c none = returns c
htlc_node e c (some m) =
    outgoing_half e e.outgoing_channel_id (incoming_half e e.incoming_channel_id m) >>= λ m'.
    returns (put_channels c e.node_id m')

-- The guard: the event has no channel, or no node.
abbrev pub is_ignored : HtlcEvent → Bool
is_ignored e =
    is_empty_id e.outgoing_channel_id && is_empty_id e.incoming_channel_id || e.node_id == 0

unfoldable pub write_update_htlc_event : HtlcEvent → Cache → Outcome Cache
write_update_htlc_event e c =
    if is_ignored e then returns c else htlc_node e c (lookup e.node_id c.channels)
