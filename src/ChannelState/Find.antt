-- ===== src/ChannelState/Find.antt =====
-- What `find_channel` gives after each kind of write to the channel state cache.
use torq.Prelude.{
  ℕ, ◌≡◌, ◌≢◌, inl, inr, Option, none, some, Option-cases, arith, ◌==◌, nat_eq, if◌then◌else◌,
}
use torq.Prelude.Map.{Map, lookup, insert, lookup-insert}
use torq.ChannelState.Types.{Settings, Cache}
use torq.ChannelState.Reads.{find_channel}
use torq.ChannelState.Writes.{put_channels, update_channel}

-- `lookup` in a node's map, where the node may be absent.
abbrev pub in_node : ℕ → Option (Map ℕ Settings) → Option Settings
in_node ch none = none
in_node ch (some m) = lookup ch m

pub find-in_node : (c : Cache) (n ch : ℕ) → find_channel c n ch ≡ in_node ch (lookup n c.channels)
unfolding find_channel
find-in_node c n ch = ground arith

pub find-put_channels :
    (c : Cache) (n : ℕ) (m : Map ℕ Settings) (n' ch' : ℕ)
    → find_channel (put_channels c n m) n' ch'
      ≡ (if n == n' then lookup ch' m else find_channel c n' ch')
unfolding find_channel
find-put_channels c n m n' ch' = ground (arith, lookup-insert n n' m c.channels)

-- A write through `update_channel` that keeps the other keys of the node's map.
pub find-update_channel_ne :
    (f : Settings → Map ℕ Settings → Map ℕ Settings) (c : Cache) (n ch n' ch' : ℕ)
    → ((s : Settings) (m : Map ℕ Settings) → lookup ch' (f s m) ≡ lookup ch' m)
    → find_channel (update_channel f c n ch) n' ch' ≡ find_channel c n' ch'
unfolding update_channel find_channel
find-update_channel_ne f c n ch n' ch' keeps = elim (Option-cases (lookup n c.channels)) [
  | inl e ↦ rw e
  | inr (m, e) ↦ elim (Option-cases (lookup ch m)) [
    | inl absent ↦ rw (e, absent)
    | inr (s, found) ↦
        rw (e, found) (ground (arith, keeps s m, lookup-insert n n' (f s m) c.channels))
  ]
]

pub find-update_channel_other_node :
    (f : Settings → Map ℕ Settings → Map ℕ Settings) (c : Cache) (n ch n' ch' : ℕ)
    → n ≢ n'
    → find_channel (update_channel f c n ch) n' ch' ≡ find_channel c n' ch'
unfolding update_channel find_channel
find-update_channel_other_node f c n ch n' ch' h = elim (Option-cases (lookup n c.channels)) [
  | inl e ↦ rw e
  | inr (m, e) ↦ elim (Option-cases (lookup ch m)) [
    | inl absent ↦ rw (e, absent)
    | inr (s, found) ↦ rw (e, found) (ground (arith, lookup-insert n n' (f s m) c.channels))
  ]
]

-- On the channel itself.
abbrev pub map_found : (Settings → Settings) → Option Settings → Option Settings
map_found g none = none
map_found g (some s) = some (g s)

pub find-update_channel_self :
    (g : Settings → Settings) (c : Cache) (n ch : ℕ)
    → find_channel (update_channel (λ s m. insert ch (g s) m) c n ch) n ch
      ≡ map_found g (find_channel c n ch)
unfolding update_channel find_channel
find-update_channel_self g c n ch = elim (Option-cases (lookup n c.channels)) [
  | inl e ↦ rw e (ground arith)
  | inr (m, e) ↦ elim (Option-cases (lookup ch m)) [
    | inl absent ↦ rw (e, absent) (ground arith)
    | inr (s, found) ↦
        rw (e, found)
          (ground
            (arith, lookup-insert n n (insert ch (g s) m) c.channels, lookup-insert ch ch (g s) m))
  ]
]
