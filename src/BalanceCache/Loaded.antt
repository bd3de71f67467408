-- ===== src/BalanceCache/Loaded.antt =====
-- What an initialisation leaves in the channel state cache (pkg/lnd/channelBalanceCache.go,
-- pkg/commons/managedChannelState.go).
use torq.Prelude.{
  ℕ, ◌≡◌, refl, sym, ap, ◌∙◌, ◌≢◌, Bool, true, false, none, some, List, [], ◌∷◌, map, Memᴰ, All,
  arith, ◌==◌, nat_eq, if◌then◌else◌, subst,
}
use mathlib.Core.List.Memᴰ.{head, tail}
use torq.Prelude.Map.{Map, lookup, insert, delete, lookup-insert}
use torq.Runtime.{returns}
use torq.Constants.{Status}
use torq.ChannelCache.Types as ChannelTypes
use torq.ChannelState.Types.{Settings, Cache}
use torq.ChannelState.Reads.{find_channel}
use torq.ChannelState.Writes.{index_by_channel, write_initial, write_node_status}
use torq.ChannelState.Process.{dispatch, process}
use torq.ChannelState.Clients.{set_channel_states, set_channel_state_node_status}
use torq.ChannelState.Find.{find-in_node, in_node}
use torq.ChannelState.Frame.Writes.{write_node_status-channels, lookup-insert_ne}
use torq.BalanceCache.Initial.{
  LndChannel, ChannelPolicy, Answers, settings_of, collected, send_collected, from_listed, collect,
  initialize_channel_balance_from_lnd,
}
use torq.BalanceCache.Deliver.{deliver}

-- No id stands twice.
abbrev pub IsDistinct : List ℕ → Type 0
IsDistinct [] = Unit
IsDistinct (x ∷ l) = (¬ Memᴰ x l) × IsDistinct l

abbrev pub id_in : Answers → LndChannel → ℕ
id_in a ch = a.channel_id_of ch.channel_point

-- The index of a list by channel, at an id that the list does not have and at one that it has.
lookup-index_absent :
    (id : ℕ) (l : List Settings) (m : Map ℕ Settings)
    → ¬ Memᴰ id (map (λ s. s.channel_id) l)
    → lookup id (index_by_channel l m) ≡ lookup id m
unfolding index_by_channel
lookup-index_absent id [] m h = refl
lookup-index_absent id (s ∷ l) m h =
    lookup-index_absent id l (insert s.channel_id s m) (λ t. h (tail t))
    ∙ lookup-insert_ne s.channel_id id s m (λ e. h (head (sym e)))

lookup-index :
    (l : List Settings) (m : Map ℕ Settings) (s : Settings)
    → IsDistinct (map (λ s. s.channel_id) l)
    → Memᴰ s l
    → lookup s.channel_id (index_by_channel l m) ≡ some s
unfolding index_by_channel
lookup-index [] m s d t = elim t [ ]
lookup-index (x ∷ l) m s d (head e) =
    lookup-index_absent s.channel_id l (insert x.channel_id x m)
      (subst (λ y. ¬ Memᴰ y.channel_id (map (λ s. s.channel_id) l)) (sym e) d.0)
    ∙ subst (λ y. lookup y.channel_id (insert x.channel_id x m) ≡ some y) (sym e)
        (ground (arith, lookup-insert x.channel_id x.channel_id x m))
lookup-index (x ∷ l) m s d (tail t) = lookup-index l (insert x.channel_id x m) s d.1 t

-- The messages of a complete list, delivered.
delivered :
    (channels : ChannelTypes.Cache) (now n : ℕ) (st : Status) (l : List Settings) (c : Cache)
    → n ≢ 0
    → (c' : Cache) × (deliver channels now (send_collected n st (collected l)).0 c ≡ returns c')
      × ((id : ℕ) → find_channel c' n id ≡ lookup id (index_by_channel l []))
unfolding deliver process dispatch write_initial set_channel_states set_channel_state_node_status
delivered channels now n st l c nz =
    let given : (n == 0) ≡ false = ground arith in
    let m = set_channel_state_node_status n st in
    let by_channel : Map ℕ Settings = index_by_channel l [] in
    let c1 : Cache = record c { channels = insert n by_channel (delete n c.channels) } in
    (
      write_node_status m now c1,
      rw given,
      λ id.
          find-in_node (write_node_status m now c1) n id
          ∙ ap (λ ms. in_node id (lookup n ms)) (write_node_status-channels m now c1)
          ∙ ground (arith, lookup-insert n n by_channel (delete n c.channels)),
    )

-- The channel is known, and the database has answered for both of its policies.
abbrev pub IsKnown : Answers → LndChannel → Type 0
IsKnown a ch =
    (id_in a ch ≢ 0)
    × ((p : ChannelPolicy) × (a.local_policy (id_in a ch) ≡ some p))
    × ((p : ChannelPolicy) × (a.remote_policy (id_in a ch) ≡ some p))

-- The cache has the state that is made of the channel and of its two policies.
abbrev pub IsCached : ℕ → Answers → Cache → LndChannel → Type 0
IsCached n a c ch =
    (local remote : ChannelPolicy) × (a.local_policy (id_in a ch) ≡ some local)
    × (a.remote_policy (id_in a ch) ≡ some remote)
    × (find_channel c n (id_in a ch) ≡ some (settings_of n a ch local remote))

nothing : (id : ℕ) → lookup {V = Settings} id [] ≡ none
unfolding lookup
nothing id = refl

module _ (wrapf : Bool → Bool) (n : ℕ) (a : Answers) where
  abbrev pub state_for : (ch : LndChannel) → IsKnown a ch → Settings
  state_for ch k = settings_of n a ch k.1.0 k.2.0

  states_for : (l : List LndChannel) → All (IsKnown a) l → List Settings
  states_for [] k = []
  states_for (ch ∷ l) k = state_for ch k.0 ∷ states_for l k.1

  collect_known :
      (l : List LndChannel) (k : All (IsKnown a) l)
      → collect wrapf n a l ≡ collected (states_for l k)
  unfolding collect states_for
  collect_known [] k = refl
  collect_known (ch ∷ l) k =
      let (nz, (local, at_local), (remote, at_remote)) = k.0 in
      let given : (id_in a ch == 0) ≡ false = ground arith in
      rw (given, at_local, at_remote, collect_known l k.1)

  ids-states_for :
      (l : List LndChannel) (k : All (IsKnown a) l)
      → map (λ s. s.channel_id) (states_for l k) ≡ map (id_in a) l
  unfolding states_for settings_of
  ids-states_for [] k = refl
  ids-states_for (ch ∷ l) k = ap (λ r. id_in a ch ∷ r) (ids-states_for l k.1)

  states_for-mem :
      {ch : LndChannel} (l : List LndChannel) (k : All (IsKnown a) l)
      → Memᴰ ch l
      → (k' : IsKnown a ch) × Memᴰ (state_for ch k') (states_for l k)
  unfolding states_for
  states_for-mem [] k t = elim t [ ]
  states_for-mem {ch} (x ∷ l) k (head e) =
      subst (λ y. (k' : IsKnown a y) × Memᴰ (state_for y k') (state_for x k.0 ∷ states_for l k.1))
        (sym e) (k.0, head refl)
  states_for-mem (x ∷ l) k (tail t) = let (k', at) = states_for-mem l k.1 t in (k', tail at)

  id-settings_of :
      (ch : LndChannel) (p q : ChannelPolicy) → (settings_of n a ch p q).channel_id ≡ id_in a ch
  unfolding settings_of
  id-settings_of ch p q = refl

  sent :
      (l : List LndChannel) (k : All (IsKnown a) l)
      → a.is_locked ≡ false
      → a.listed ≡ some l
      → initialize_channel_balance_from_lnd wrapf n a
        ≡ send_collected n a.status (collected (states_for l k))
  unfolding initialize_channel_balance_from_lnd
  sent l k unlocked listed =
      ap (λ b. if b then ([], true) else from_listed wrapf n a a.listed) unlocked
      ∙ ap (from_listed wrapf n a) listed
      ∙ ap (send_collected n a.status) (collect_known l k)

  -- Where LND lists channels that are all known, with policies that the database gives and with no id
  -- twice, the initialisation succeeds, and once its messages are handled the channel state cache has
  -- for the node just these channels: each with the state that is made of it and of its two policies.
  pub initialize-read_back :
      (channels : ChannelTypes.Cache) (now : ℕ) (l : List LndChannel) (c : Cache)
      → n ≢ 0
      → a.is_locked ≡ false
      → a.listed ≡ some l
      → All (IsKnown a) l
      → IsDistinct (map (id_in a) l)
      → let sent = initialize_channel_balance_from_lnd wrapf n a in
        (sent.1 ≡ false)
        × ((c' : Cache) × (deliver channels now sent.0 c ≡ returns c')
            × ((ch : LndChannel) → Memᴰ ch l → IsCached n a c' ch)
            × ((id : ℕ) → ¬ Memᴰ id (map (id_in a) l) → find_channel c' n id ≡ none))
  initialize-read_back channels now l c nz unlocked listed k distinct =
      let ss = states_for l k in
      let (c', done, read) = delivered channels now n a.status ss c nz in
      let ids = ids-states_for l k in
      let copies : (ch : LndChannel) → Memᴰ ch l → IsCached n a c' ch =
        λ (ch : LndChannel) (t : Memᴰ ch l).
          let ((nz, (local, at_local), (remote, at_remote)), at) = states_for-mem l k t in
          let s : Settings = settings_of n a ch local remote in
          let same : s.channel_id ≡ id_in a ch = id-settings_of ch local remote in
          let cached : find_channel c' n (id_in a ch) ≡ some s =
            ap (find_channel c' n) (sym same)
            ∙ read s.channel_id
            ∙ lookup-index ss [] s (subst IsDistinct (sym ids) distinct) at in
          (local, remote, at_local, at_remote, cached) in
      let others = λ (id : ℕ) (h : ¬ Memᴰ id (map (id_in a) l)).
        read id
        ∙ lookup-index_absent id ss [] (subst (λ m. ¬ Memᴰ id m) (sym ids) h)
        ∙ nothing id in
      rw (sent l k unlocked listed) (refl, (c', done, copies, others))
