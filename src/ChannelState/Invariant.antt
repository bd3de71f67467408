-- ===== src/ChannelState/Invariant.antt =====
-- What holds of the channel state cache between two messages.
use torq.Prelude.{
  ℕ, ◌≡◌, refl, sym, inl, inr, ◌||◌, true, false, Bool-cases, subst, List, [], ◌∷◌, All, arith,
  ◌==◌, nat_eq,
}
use torq.Prelude.Map.{lookup}
use torq.Runtime.{>>=-eq-returns, returns}
use torq.ChannelCache.Types as ChannelTypes
use torq.ChannelState.Types.{
  OperationType, read_channelstate, read_all_channelstates, read_channelbalancestate,
  read_all_channelbalancestates, write_initial_channelstates, write_channelstate_nodestatus,
  write_channelstate_channelstatus, write_channelstate_routingpolicy,
  write_channelstate_updatebalance, write_channelstate_updatehtlcevent, Settings, Message, Reply,
  Cache,
}
use torq.ChannelState.Reads.{find_channel, is_node_ready}
use torq.ChannelState.Writes.{
  write_node_status, apply_channel_status, write_channel_status, write_routing_policy,
  write_update_balance, apply_policy, apply_balance,
}
use torq.ChannelState.Htlcs.{apply_incoming, apply_outgoing, write_update_htlc_event}
use torq.ChannelState.Process.{dispatch, process, empty, Turn, run}
use torq.ChannelState.Find.{find-in_node}
use torq.ChannelState.Pending.{IsDistinct, IsDistinct-toggle}
use torq.ChannelState.Each.{
  Each, Each-update_channel, Each-update_insert, Each-write_initial, Each-apply_channel_status,
  Each-write_update_htlc_event,
}
use torq.ChannelState.Timed.{IsTimed, dispatch-IsTimed}
use torq.ChannelState.Frame.{replying-eq, written-eq}
use torq.ChannelState.Frame.Writes.{write_node_status-channels}

-- Of one cached channel: it stands under its own id, and its pending HTLCs are distinct.
abbrev pub IsSound : ℕ → Settings → Type 0
IsSound ch s = (s.channel_id ≡ ch) × IsDistinct s.pending_htlcs

pub record IsWellFormed (c : Cache) : Type 0 where
  pub sound : Each IsSound c
  pub timed : IsTimed c

-- What an initial write brings in is sound.
abbrev pub BringsSound : Message → Type 0
BringsSound m = All (λ s. IsDistinct s.pending_htlcs) m.channel_state_settings

All-IsSound :
    (l : List Settings)
    → All (λ s. IsDistinct s.pending_htlcs) l
    → All (λ s. IsSound s.channel_id s) l
All-IsSound [] h = tt
All-IsSound (s ∷ l) h = ((refl, h.0), All-IsSound l h.1)

apply_policy-IsSound :
    (m : Message) (ch : ℕ) (s : Settings) → IsSound ch s → IsSound ch (apply_policy m s)
unfolding apply_policy
apply_policy-IsSound m ch s h = elim (Bool-cases m.is_local) [ inl e ↦ rw e h | inr e ↦ rw e h ]

apply_incoming-IsSound :
    (id amt index : ℕ) (s : Settings) → IsSound id s → IsSound id (apply_incoming amt index s)
unfolding apply_incoming
apply_incoming-IsSound id amt index s h = (h.0, IsDistinct-toggle true _ index _ h.1)

apply_outgoing-IsSound :
    (id a amt index : ℕ) (s : Settings) → IsSound id s → IsSound id (apply_outgoing a amt index s)
unfolding apply_outgoing
apply_outgoing-IsSound id a amt index s h = (h.0, IsDistinct-toggle false _ index _ h.1)

apply_balance-IsSound :
    (amount ch : ℕ) (s : Settings) → IsSound ch s → IsSound ch (apply_balance amount s)
unfolding apply_balance
apply_balance-IsSound amount ch s h = h

-- The same channels, whatever else changes.
Each-same_channels : (c d : Cache) → d.channels ≡ c.channels → Each IsSound c → Each IsSound d
Each-same_channels c d e each n ch s h =
    each n ch s (ground (arith, find-in_node c n ch, find-in_node d n ch))

write_channel_status-IsSound :
    (m : Message) (now : ℕ) (c : Cache)
    → Each IsSound c
    → Each IsSound (write_channel_status m now c)
unfolding write_channel_status
write_channel_status-IsSound m now c each =
    elim (Bool-cases (m.channel_id == 0 || m.node_id == 0)) [
      | inl missing ↦ rw missing each
      | inr given ↦ elim (Bool-cases (is_node_ready c now m.node_id m.force_response)) [
        | inr waits ↦ rw (given, waits) each
        | inl ready ↦
            rw (given, ready)
              (Each-update_channel IsSound (apply_channel_status m.status m.channel_id) c m.node_id
                m.channel_id (Each-apply_channel_status IsSound m.status m.channel_id (λ b s p. p))
                each)
      ]
    ]

write_routing_policy-IsSound :
    (m : Message) (now : ℕ) (c : Cache)
    → Each IsSound c
    → Each IsSound (write_routing_policy m now c)
unfolding write_routing_policy
write_routing_policy-IsSound m now c each =
    elim (Bool-cases (m.channel_id == 0 || m.node_id == 0)) [
      | inl missing ↦ rw missing each
      | inr given ↦ elim (Bool-cases (is_node_ready c now m.node_id m.force_response)) [
        | inr waits ↦ rw (given, waits) each
        | inl ready ↦
            rw (given, ready)
              (Each-update_insert IsSound (apply_policy m) c m.node_id m.channel_id
                (apply_policy-IsSound m m.channel_id) each)
      ]
    ]

write_update_balance-IsSound :
    (m : Message) (c : Cache) → Each IsSound c → Each IsSound (write_update_balance m c)
unfolding write_update_balance
write_update_balance-IsSound m c each = elim (Bool-cases (m.channel_id == 0 || m.node_id == 0)) [
  | inl missing ↦ rw missing each
  | inr given ↦ rw given (
      Each-update_insert IsSound (apply_balance m.amount) c m.node_id m.channel_id
        (apply_balance-IsSound m.amount m.channel_id) each)
]

dispatch-IsSound :
    (op : OperationType) (channels : ChannelTypes.Cache) (m : Message) (now : ℕ) (c c' : Cache)
    (r : Reply)
    → BringsSound m
    → Each IsSound c
    → dispatch op channels m now c ≡ returns (c', r)
    → Each IsSound c'
unfolding dispatch
dispatch-IsSound read_channelstate channels m now c c' r b each h =
    subst (Each IsSound) (sym (replying-eq c c' _ r h)) each
dispatch-IsSound read_all_channelstates channels m now c c' r b each h =
    subst (Each IsSound) (sym (replying-eq c c' _ r h)) each
dispatch-IsSound read_channelbalancestate channels m now c c' r b each h =
    subst (Each IsSound) (sym (replying-eq c c' _ r h)) each
dispatch-IsSound read_all_channelbalancestates channels m now c c' r b each h =
    subst (Each IsSound) (sym (replying-eq c c' _ r h)) each
dispatch-IsSound write_initial_channelstates channels m now c c' r b each h =
    subst (Each IsSound) (ground arith)
      (Each-write_initial IsSound m c (All-IsSound m.channel_state_settings b) each)
dispatch-IsSound write_channelstate_nodestatus channels m now c c' r b each h =
    subst (Each IsSound) (ground arith)
      (Each-same_channels c (write_node_status m now c) (write_node_status-channels m now c) each)
dispatch-IsSound write_channelstate_channelstatus channels m now c c' r b each h =
    subst (Each IsSound) (ground arith) (write_channel_status-IsSound m now c each)
dispatch-IsSound write_channelstate_routingpolicy channels m now c c' r b each h =
    subst (Each IsSound) (ground arith) (write_routing_policy-IsSound m now c each)
dispatch-IsSound write_channelstate_updatebalance channels m now c c' r b each h =
    subst (Each IsSound) (ground arith) (write_update_balance-IsSound m c each)
dispatch-IsSound write_channelstate_updatehtlcevent channels m now c c' r b each h =
    let (d, q, e) = written-eq (write_update_htlc_event m.htlc_event c) c' r h in
    subst (Each IsSound) e (
      Each-write_update_htlc_event IsSound apply_incoming-IsSound apply_outgoing-IsSound
        m.htlc_event c d each q)

-- Every message that the cache handles keeps it well formed, if the states that an initial write
-- brings have distinct pending HTLCs each.
pub process-IsWellFormed :
    (channels : ChannelTypes.Cache) (m : Message) (now : ℕ) (c c' : Cache) (r : Reply)
    → BringsSound m
    → IsWellFormed c
    → process channels m now c ≡ returns (c', r)
    → IsWellFormed c'
unfolding process
process-IsWellFormed channels m now c c' r b w h = record {
  sound = dispatch-IsSound m.operation channels m now c c' r b w.sound h;
  timed = dispatch-IsTimed m.operation channels m now c c' r w.timed h;
}

-- The messages of a run bring only sound states.
abbrev pub BringSound : List Turn → Type 0
BringSound l = All (λ t. BringsSound t.message) l

empty-IsWellFormed : IsWellFormed empty
unfolding lookup find_channel
empty-IsWellFormed = record { sound = λ n ch s h. cc; timed = λ n st h ne. cc }

run_from-IsWellFormed :
    (l : List Turn) (c c' : Cache) (replies : List Reply)
    → BringSound l
    → IsWellFormed c
    → run l c ≡ returns (c', replies)
    → IsWellFormed c'
unfolding run
run_from-IsWellFormed [] c c' replies b w h = subst IsWellFormed (ground arith) w
run_from-IsWellFormed (t ∷ l) c c' replies b w h =
    let (q, first, rest) = >>=-eq-returns (process t.channel_cache t.message t.now c) _ h in
    let (p, others, last) = >>=-eq-returns (run l q.0) _ rest in
    run_from-IsWellFormed l q.0 c' p.1 b.1
      (process-IsWellFormed t.channel_cache t.message t.now c q.0 q.1 b.0 w first) (ground arith)

-- Whatever messages the cache has handled since it started, at whatever times: every channel stands
-- under its own id with distinct pending HTLCs, and every node that is known not to be active has a
-- deactivation time. The states that initial writes bring have distinct pending HTLCs each.
pub run-IsWellFormed :
    (l : List Turn) (c : Cache) (replies : List Reply)
    → BringSound l
    → run l empty ≡ returns (c, replies)
    → IsWellFormed c
run-IsWellFormed l c replies b h = run_from-IsWellFormed l empty c replies b empty-IsWellFormed h
