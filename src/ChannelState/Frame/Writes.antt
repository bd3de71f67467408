-- ===== src/ChannelState/Frame/Writes.antt =====
-- The writes to one channel, one node or one status, at every other channel.
use torq.Prelude.{ℕ, ◌≡◌, refl, ◌≢◌, inl, inr, Option-cases, [], arith, ◌==◌, nat_eq, Bool-cases}
use torq.Prelude.Map.{Map, lookup, insert, delete, lookup-insert, lookup-delete}
use torq.Constants.{Status, inactive, active, pending, deleted, initializing}
use torq.ChannelState.Types.{Settings, Message, Cache}
use torq.ChannelState.Reads.{find_channel}
use torq.ChannelState.Writes.{
  index_by_channel, write_initial, write_node_status, apply_channel_status, update_channel,
  write_channel_status, write_routing_policy, write_update_balance, apply_policy, apply_balance,
}
use torq.ChannelState.Find.{find-update_channel_ne, find-update_channel_other_node}

pub lookup-insert_ne :
    (k j : ℕ) (s : Settings) (m : Map ℕ Settings) → k ≢ j → lookup j (insert k s m) ≡ lookup j m
lookup-insert_ne k j s m h = ground (arith, lookup-insert k j s m)

pub lookup-apply_channel_status :
    (st : Status) (id j : ℕ) (s : Settings) (m : Map ℕ Settings)
    → id ≢ j
    → lookup j (apply_channel_status st id s m) ≡ lookup j m
unfolding apply_channel_status
lookup-apply_channel_status deleted id j s m h = ground (arith, lookup-delete id j m)
lookup-apply_channel_status active id j s m h = lookup-insert_ne id j _ m h
lookup-apply_channel_status inactive id j s m h = lookup-insert_ne id j _ m h
lookup-apply_channel_status pending id j s m h = refl
lookup-apply_channel_status initializing id j s m h = refl

-- A write to (n, ch) that keeps the other keys is not seen at any other pair.
pub find-update_channel_frame :
    (f : Settings → Map ℕ Settings → Map ℕ Settings) (c : Cache) (n ch n' ch' : ℕ)
    → (ch ≢ ch' → (s : Settings) (m : Map ℕ Settings) → lookup ch' (f s m) ≡ lookup ch' m)
    → ¬ ((n ≡ n') × (ch ≡ ch'))
    → find_channel (update_channel f c n ch) n' ch' ≡ find_channel c n' ch'
find-update_channel_frame f c n ch n' ch' keeps h = elim (Bool-cases (n == n')) [
  | inl same ↦ find-update_channel_ne f c n ch n' ch' (keeps (λ e. h (ground arith, e)))
  | inr other ↦ find-update_channel_other_node f c n ch n' ch' (ground arith)
]

-- The three writes to one channel.
pub write_channel_status-frame :
    (m : Message) (now : ℕ) (c : Cache) (n ch : ℕ)
    → ¬ ((m.node_id ≡ n) × (m.channel_id ≡ ch))
    → find_channel (write_channel_status m now c) n ch ≡ find_channel c n ch
unfolding write_channel_status
write_channel_status-frame m now c n ch h =
    let kept =
      find-update_channel_frame (apply_channel_status m.status m.channel_id) c m.node_id
        m.channel_id n ch (λ ne s b. lookup-apply_channel_status m.status m.channel_id ch s b ne)
        h in
    ground arith

pub write_routing_policy-frame :
    (m : Message) (now : ℕ) (c : Cache) (n ch : ℕ)
    → ¬ ((m.node_id ≡ n) × (m.channel_id ≡ ch))
    → find_channel (write_routing_policy m now c) n ch ≡ find_channel c n ch
unfolding write_routing_policy
write_routing_policy-frame m now c n ch h =
    let kept =
      find-update_channel_frame (λ s b. insert m.channel_id (apply_policy m s) b) c m.node_id
        m.channel_id n ch (λ ne s b. lookup-insert_ne m.channel_id ch (apply_policy m s) b ne) h in
    ground arith

pub write_update_balance-frame :
    (m : Message) (c : Cache) (n ch : ℕ)
    → ¬ ((m.node_id ≡ n) × (m.channel_id ≡ ch))
    → find_channel (write_update_balance m c) n ch ≡ find_channel c n ch
unfolding write_update_balance
write_update_balance-frame m c n ch h =
    let kept =
      find-update_channel_frame (λ s b. insert m.channel_id (apply_balance m.amount s) b) c
        m.node_id m.channel_id n ch
        (λ ne s b. lookup-insert_ne m.channel_id ch (apply_balance m.amount s) b ne) h in
    ground arith

pub write_initial-frame :
    (m : Message) (c : Cache) (n ch : ℕ)
    → m.node_id ≢ n
    → find_channel (write_initial m c) n ch ≡ find_channel c n ch
unfolding write_initial find_channel
write_initial-frame m c n ch h =
    let by_channel = index_by_channel m.channel_state_settings [] in
    ground (
      arith,
      lookup-insert m.node_id n by_channel (delete m.node_id c.channels),
      lookup-delete m.node_id n c.channels,
    )

pub write_node_status-channels :
    (m : Message) (now : ℕ) (c : Cache) → (write_node_status m now c).channels ≡ c.channels
unfolding write_node_status
write_node_status-channels m now c = elim (Option-cases (lookup m.node_id c.status)) [
  | inl e ↦ rw e (ground arith)
  | inr (s, e) ↦ rw e (ground arith)
]
