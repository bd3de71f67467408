-- ===== src/ChannelState/Frame/Htlcs.antt =====
-- An HTLC event, at every channel that it does not name.
use torq.Prelude.{
  ℕ, ◌≡◌, refl, ap, ◌≢◌, ◌⊎◌, inl, inr, Option, none, some, Option-cases, arith, ◌==◌, nat_eq,
  Bool-cases,
}
use torq.Prelude.Map.{Map, lookup, lookup-insert}
use torq.Runtime.{Outcome, returns, panics, blocks, ◌>>=◌}
use torq.Events.{HtlcEvent}
use torq.ChannelState.Types.{Settings, Cache}
use torq.ChannelState.Reads.{find_channel}
use torq.ChannelState.Writes.{put_channels}
use torq.ChannelState.Htlcs.{
  apply_outgoing, incoming_found, incoming_half, outgoing_found, outgoing_half, htlc_node,
  write_update_htlc_event,
}
use torq.ChannelState.Find.{find-in_node, find-put_channels}
use torq.ChannelState.Frame.Writes.{lookup-insert_ne}

pub incoming_found-frame :
    (id : ℕ) (amt index : Option ℕ) (o : Option Settings) (m : Map ℕ Settings) (j : ℕ)
    → id ≢ j
    → lookup j (incoming_found id amt index o m) ≡ lookup j m
unfolding incoming_found
incoming_found-frame id (some amt) (some index) (some s) m j h = lookup-insert_ne id j _ m h
incoming_found-frame id _ _ _ m j h = refl

pub incoming_half-frame :
    (e : HtlcEvent) (id : Option ℕ) (m : Map ℕ Settings) (j : ℕ)
    → id ≢ some j
    → lookup j (incoming_half e id m) ≡ lookup j m
unfolding incoming_half
incoming_half-frame e none m j h = refl
incoming_half-frame e (some id) m j h =
    let apart : id ≢ j = λ q. h (ap some q) in
    ground (
      arith,
      incoming_found-frame id e.incoming_amt_msat e.incoming_htlc_id (lookup id m) m j apart,
    )

pub outgoing_found-frame :
    (id : ℕ) (incoming_amt amt index : Option ℕ) (o : Option Settings) (m m' : Map ℕ Settings)
    (j : ℕ)
    → id ≢ j
    → outgoing_found id incoming_amt amt index o m ≡ returns m'
    → lookup j m' ≡ lookup j m
unfolding outgoing_found
outgoing_found-frame id none (some amt) (some index) (some s) m m' j h p = cc
outgoing_found-frame id (some a) (some amt) (some index) (some s) m m' j h p =
    let s' = apply_outgoing a amt index s in ground (arith, lookup-insert id j s' m)
outgoing_found-frame id _ _ _ _ m m' j h p = ground arith

pub outgoing_half-frame :
    (e : HtlcEvent) (id : Option ℕ) (m m' : Map ℕ Settings) (j : ℕ)
    → id ≢ some j
    → outgoing_half e id m ≡ returns m'
    → lookup j m' ≡ lookup j m
unfolding outgoing_half
outgoing_half-frame e none m m' j h p = ground arith
outgoing_half-frame e (some id) m m' j h p =
    let apart : id ≢ j = λ q. h (ap some q) in
    ground (
      arith,
      outgoing_found-frame id e.incoming_amt_msat e.outgoing_amt_msat e.outgoing_htlc_id
          (lookup id m) m m' j apart,
    )

-- Both halves, on the map of the event's node.
pub halves-frame :
    (e : HtlcEvent) (c c' : Cache) (m : Map ℕ Settings) (n ch : ℕ)
    → lookup e.node_id c.channels ≡ some m
    → ¬ ((e.node_id ≡ n) × ((e.incoming_channel_id ≡ some ch) ⊎ (e.outgoing_channel_id ≡ some ch)))
    → htlc_node e c (some m) ≡ returns c'
    → find_channel c' n ch ≡ find_channel c n ch
halves-frame e c c' m n ch q h p =
    go (outgoing_half e e.outgoing_channel_id (incoming_half e e.incoming_channel_id m)) refl p
  where
    before : Map ℕ Settings
    before = incoming_half e e.incoming_channel_id m

    go :
        (o : Outcome (Map ℕ Settings))
        → outgoing_half e e.outgoing_channel_id before ≡ o
        → (o >>= λ m'. returns (put_channels c e.node_id m')) ≡ returns c'
        → find_channel c' n ch ≡ find_channel c n ch
    go panics r p' = cc
    go blocks r p' = cc
    go (returns m') r p' = elim (Bool-cases (e.node_id == n)) [
      | inr other ↦ ground (arith, find-put_channels c e.node_id m' n ch)
      | inl same ↦
          let here : e.node_id ≡ n = ground arith in
          let not_in : e.incoming_channel_id ≢ some ch = λ x. h (here, inl x) in
          let not_out : e.outgoing_channel_id ≢ some ch = λ x. h (here, inr x) in
          ground (
            arith,
            find-put_channels c e.node_id m' n ch,
            find-in_node c n ch,
            outgoing_half-frame e e.outgoing_channel_id before m' ch not_out r,
            incoming_half-frame e e.incoming_channel_id m ch not_in,
          )
    ]

pub write_update_htlc_event-frame :
    (e : HtlcEvent) (c c' : Cache) (n ch : ℕ)
    → ¬ ((e.node_id ≡ n) × ((e.incoming_channel_id ≡ some ch) ⊎ (e.outgoing_channel_id ≡ some ch)))
    → write_update_htlc_event e c ≡ returns c'
    → find_channel c' n ch ≡ find_channel c n ch
unfolding write_update_htlc_event
write_update_htlc_event-frame e c c' n ch h p = elim (Option-cases (lookup e.node_id c.channels)) [
  | inl absent ↦ ground arith
  | inr (m, q) ↦ ground (arith, halves-frame e c c' m n ch q h)
]
