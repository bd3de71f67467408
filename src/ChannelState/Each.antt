-- ===== src/ChannelState/Each.antt =====
-- Predicates on every cached channel: what each write asks of the change that it makes.
use torq.Prelude.{
  ℕ, ◌≡◌, refl, inl, inr, Bool, true, false, Bool-cases, subst, Option, none, some, Option-cases,
  List, [], ◌∷◌, All, arith, ◌==◌, nat_eq,
}
use torq.Prelude.Map.{Map, lookup, insert, delete, lookup-insert, lookup-delete}
use torq.Runtime.{Outcome, returns, panics, blocks, ◌>>=◌}
use torq.Constants.{Status, inactive, active, pending, deleted, initializing}
use torq.Events.{HtlcEvent}
use torq.ChannelState.Types.{Settings, Message, Cache}
use torq.ChannelState.Reads.{find_channel}
use torq.ChannelState.Writes.{
  index_by_channel, write_initial, apply_channel_status, put_channels, update_channel,
}
use torq.ChannelState.Htlcs.{
  apply_incoming, apply_outgoing, incoming_found, incoming_half, outgoing_found, outgoing_half,
  is_ignored, write_update_htlc_event,
}
use torq.ChannelState.Find.{find-in_node, find-put_channels}

module _ (P : ℕ → Settings → Type 0) where
  -- Of one node's map, and of the cache.
  abbrev pub EachIn : Map ℕ Settings → Type 0
  EachIn m = (ch : ℕ) (s : Settings) → lookup ch m ≡ some s → P ch s

  abbrev pub Each : Cache → Type 0
  Each c = (n ch : ℕ) (s : Settings) → find_channel c n ch ≡ some s → P ch s

  EachIn-empty : EachIn []
  unfolding lookup
  EachIn-empty ch s h = cc

  EachIn-insert :
      (id : ℕ) (v : Settings) (m : Map ℕ Settings) → P id v → EachIn m → EachIn (insert id v m)
  EachIn-insert id v m p each ch s h = elim (Bool-cases (id == ch)) [
    | inl same ↦
        let e : id ≡ ch = ground arith in
        let q : v ≡ s = ground (arith, lookup-insert id ch v m) in
        subst (λ k. P k s) e (subst (λ x. P id x) q p)
    | inr other ↦ each ch s (ground (arith, lookup-insert id ch v m))
  ]

  EachIn-delete : (id : ℕ) (m : Map ℕ Settings) → EachIn m → EachIn (delete id m)
  EachIn-delete id m each ch s h = each ch s (ground (arith, lookup-delete id ch m))

  EachIn-node :
      (c : Cache) (n : ℕ) (m : Map ℕ Settings) → lookup n c.channels ≡ some m → Each c → EachIn m
  EachIn-node c n m e each ch s h = each n ch s (ground (arith, find-in_node c n ch))

  Each-put_channels :
      (c : Cache) (n : ℕ) (m : Map ℕ Settings) → EachIn m → Each c → Each (put_channels c n m)
  Each-put_channels c n m here each n' ch s h = elim (Bool-cases (n == n')) [
    | inl same ↦ here ch s (ground (arith, find-put_channels c n m n' ch))
    | inr other ↦ each n' ch s (ground (arith, find-put_channels c n m n' ch))
  ]

  pub Each-update_channel :
      (f : Settings → Map ℕ Settings → Map ℕ Settings) (c : Cache) (n ch : ℕ)
      → ((s : Settings) (m : Map ℕ Settings) → P ch s → EachIn m → EachIn (f s m))
      → Each c
      → Each (update_channel f c n ch)
  unfolding update_channel
  Each-update_channel f c n ch keeps each = elim (Option-cases (lookup n c.channels)) [
    | inl e ↦ rw e each
    | inr (m, e) ↦ elim (Option-cases (lookup ch m)) [
      | inl absent ↦ rw (e, absent) each
      | inr (s, found) ↦
          let inside = EachIn-node c n m e each in
          rw (e, found) (Each-put_channels c n (f s m) (keeps s m (inside ch s found) inside) each)
    ]
  ]

  pub Each-update_insert :
      (g : Settings → Settings) (c : Cache) (n ch : ℕ)
      → ((s : Settings) → P ch s → P ch (g s))
      → Each c
      → Each (update_channel (λ s m. insert ch (g s) m) c n ch)
  Each-update_insert g c n ch keeps =
      Each-update_channel (λ s m. insert ch (g s) m) c n ch
        (λ s m p inside. EachIn-insert ch (g s) m (keeps s p) inside)

  EachIn-index_by_channel :
      (l : List Settings) (m : Map ℕ Settings)
      → All (λ s. P s.channel_id s) l
      → EachIn m
      → EachIn (index_by_channel l m)
  unfolding index_by_channel
  EachIn-index_by_channel [] m all inside = inside
  EachIn-index_by_channel (s ∷ l) m all inside =
      EachIn-index_by_channel l (insert s.channel_id s m) all.1
        (EachIn-insert s.channel_id s m all.0 inside)

  Each-delete_node :
      (c : Cache) (n : ℕ) → Each c → Each (record c { channels = delete n c.channels })
  unfolding find_channel
  Each-delete_node c n each n' ch s h = each n' ch s (ground (arith, lookup-delete n n' c.channels))

  pub Each-write_initial :
      (m : Message) (c : Cache)
      → All (λ s. P s.channel_id s) m.channel_state_settings
      → Each c
      → Each (write_initial m c)
  unfolding write_initial
  Each-write_initial m c all each = elim (Bool-cases (m.node_id == 0)) [
    | inl empty ↦ rw empty each
    | inr given ↦ rw given (
        Each-put_channels (record c { channels = delete m.node_id c.channels }) m.node_id
          (index_by_channel m.channel_state_settings [])
          (EachIn-index_by_channel m.channel_state_settings [] all EachIn-empty)
          (Each-delete_node c m.node_id each))
  ]

  pub Each-apply_channel_status :
      (st : Status) (id : ℕ)
      → ((b : Bool) (s : Settings) → P id s → P id (record s { local_disabled = b }))
      → (s : Settings) (m : Map ℕ Settings) → P id s
      → EachIn m
      → EachIn (apply_channel_status st id s m)
  unfolding apply_channel_status
  Each-apply_channel_status active id keeps s m p inside =
      EachIn-insert id (record s { local_disabled = false }) m (keeps false s p) inside
  Each-apply_channel_status inactive id keeps s m p inside =
      EachIn-insert id (record s { local_disabled = true }) m (keeps true s p) inside
  Each-apply_channel_status deleted id keeps s m p inside = EachIn-delete id m inside
  Each-apply_channel_status pending id keeps s m p inside = inside
  Each-apply_channel_status initializing id keeps s m p inside = inside

  -- The change that an HTLC event makes to one channel, and the event on the cache.
  module _
      (incoming : (id amt index : ℕ) (s : Settings) → P id s → P id (apply_incoming amt index s))
      (outgoing : (id a amt index : ℕ) (s : Settings)
        → P id s
        → P id (apply_outgoing a amt index s)) where
    EachIn-incoming_found :
        (id : ℕ) (amt index : Option ℕ) (o : Option Settings) (m : Map ℕ Settings)
        → ((s : Settings) → o ≡ some s → P id s)
        → EachIn m
        → EachIn (incoming_found id amt index o m)
    unfolding incoming_found
    EachIn-incoming_found id (some amt) (some index) (some s) m p inside =
        EachIn-insert id (apply_incoming amt index s) m (incoming id amt index s (p s refl)) inside
    EachIn-incoming_found id _ _ _ m p inside = inside

    EachIn-incoming_half :
        (e : HtlcEvent) (id : Option ℕ) (m : Map ℕ Settings)
        → EachIn m
        → EachIn (incoming_half e id m)
    unfolding incoming_half
    EachIn-incoming_half e none m inside = inside
    EachIn-incoming_half e (some id) m inside = elim (Bool-cases (id == 0)) [
      | inl empty ↦ rw empty inside
      | inr given ↦ rw given (
          EachIn-incoming_found id e.incoming_amt_msat e.incoming_htlc_id (lookup id m) m
            (inside id) inside)
    ]

    EachIn-outgoing_found :
        (id : ℕ) (a amt index : Option ℕ) (o : Option Settings) (m m' : Map ℕ Settings)
        → ((s : Settings) → o ≡ some s → P id s)
        → EachIn m
        → outgoing_found id a amt index o m ≡ returns m'
        → EachIn m'
    unfolding outgoing_found
    EachIn-outgoing_found id none (some amt) (some index) (some s) m m' p inside h = cc
    EachIn-outgoing_found id (some a) (some amt) (some index) (some s) m m' p inside h =
        subst EachIn (ground arith) (
          EachIn-insert id (apply_outgoing a amt index s) m (outgoing id a amt index s (p s refl))
            inside)
    EachIn-outgoing_found id _ _ _ _ m m' p inside h = subst EachIn (ground arith) inside

    EachIn-outgoing_half :
        (e : HtlcEvent) (id : Option ℕ) (m m' : Map ℕ Settings)
        → EachIn m
        → outgoing_half e id m ≡ returns m'
        → EachIn m'
    unfolding outgoing_half
    EachIn-outgoing_half e none m m' inside h = subst EachIn (ground arith) inside
    EachIn-outgoing_half e (some id) m m' inside h = elim (Bool-cases (id == 0)) [
      | inl empty ↦ subst EachIn (ground arith) inside
      | inr given ↦
          EachIn-outgoing_found id e.incoming_amt_msat e.outgoing_amt_msat e.outgoing_htlc_id
            (lookup id m) m m' (inside id) inside (ground arith)
    ]

    Each-put_result :
        (c c' : Cache) (n : ℕ) (o : Outcome (Map ℕ Settings))
        → ((m : Map ℕ Settings) → o ≡ returns m → EachIn m)
        → Each c
        → (o >>= λ m. returns (put_channels c n m)) ≡ returns c'
        → Each c'
    Each-put_result c c' n (returns m) inside each h =
        subst Each (ground arith) (Each-put_channels c n m (inside m refl) each)
    Each-put_result c c' n panics inside each h = cc
    Each-put_result c c' n blocks inside each h = cc

    pub Each-write_update_htlc_event :
        (e : HtlcEvent) (c c' : Cache) → Each c → write_update_htlc_event e c ≡ returns c' → Each c'
    unfolding write_update_htlc_event
    Each-write_update_htlc_event e c c' each h = elim (Option-cases (lookup e.node_id c.channels)) [
      | inl absent ↦ subst Each (ground arith) each
      | inr (m, found) ↦ elim (Bool-cases (is_ignored e)) [
        | inl ignored ↦ subst Each (ground arith) each
        | inr taken ↦
            let before : Map ℕ Settings = incoming_half e e.incoming_channel_id m in
            Each-put_result c c' e.node_id (outgoing_half e e.outgoing_channel_id before)
              (λ m' p.
                EachIn-outgoing_half e e.outgoing_channel_id before m'
                  (EachIn-incoming_half e e.incoming_channel_id m
                    (EachIn-node c e.node_id m found each))
                  p)
              each (rw (taken, found) at h)
      ]
    ]
