-- ===== src/ChannelState/Faults.antt =====
-- Which messages to the channel state cache panic or are never answered.
use torq.Prelude.{
  ℕ, ◌/◌, ◌<◌, leb, ◌≡◌, refl, ap, ◌∙◌, List, [], ◌∷◌, ◌++◌, ◌≢◌, ◌↔◌, inl, inr, ◌||◌, Bool, true,
  false, Bool-cases, Option, none, some, Option-cases, arith, ◌==◌, nat_eq,
}
use torq.Prelude.Map.{Map, lookup, insert}
use torq.Words.{sign_bit}
use torq.Runtime.{returns, panics, blocks, >>=-eq-returns}
use torq.Events.{HtlcEvent}
use torq.ChannelCache.Types as ChannelTypes
use torq.ChannelCache.Reads.{channel_setting_of}
use torq.ChannelState.Types.{
  HtlcInclude, StateInclude, Settings, BalanceState, Reply, no_reply, balance_state, Cache,
}
use torq.ChannelState.Reads.{
  is_node_ready, find_channel, included_local, included_remote, per_mille, process_htlc_include,
  balance_of_channel, read_channel_balance_state,
}
use torq.ChannelState.Writes.{put_channels}
use torq.ChannelState.Htlcs.{
  apply_outgoing, is_ignored, incoming_half, outgoing_found, outgoing_half, write_update_htlc_event,
}
use torq.ChannelState.Process.{replying, process, Turn, run}
use torq.ChannelState.Clients.{
  get_channel_balance_states, get_channel_balance_state, set_channel_state_balance_htlc_event,
}

-- The message asks for one balance, and the answer goes to a channel that it does not provide.
get_channel_balance_states_blocks :
    (channels : ChannelTypes.Cache) (c : Cache) (node_id now : ℕ) (force : Bool) (si : StateInclude)
    (hi : HtlcInclude)
    → process channels (get_channel_balance_states node_id force si hi) now c ≡ blocks
unfolding process read_channel_balance_state get_channel_balance_states
get_channel_balance_states_blocks channels c node_id now force si hi = refl

run-blocked :
    (before after : List Turn) (t : Turn) (c c' : Cache) (rs : List Reply)
    → run before c ≡ returns (c', rs)
    → ((d : Cache) → process t.channel_cache t.message t.now d ≡ blocks)
    → run (before ++ (t ∷ after)) c ≡ blocks
unfolding run
run-blocked [] after t c c' rs h stuck = rw (stuck c) refl
run-blocked (u ∷ before) after t c c' rs h stuck =
    let (r, first, rest) = >>=-eq-returns (process u.channel_cache u.message u.now c) _ h in
    let (q, tail_runs, _) = >>=-eq-returns (run before r.0) _ rest in
    rw (first, run-blocked before after t r.0 q.0 q.1 tail_runs stuck) refl

-- One call of `GetChannelBalanceStates` stops the cache: whatever messages the loop has handled
-- before, whatever the caches hold and whatever the call asks for, the loop waits for ever at its
-- message, and none of the messages that come after is ever handled or answered.
pub run-get_channel_balance_states :
    (before after : List Turn) (t : Turn) (c c' : Cache) (rs : List Reply) (node_id : ℕ)
    (force : Bool) (si : StateInclude) (hi : HtlcInclude)
    → run before c ≡ returns (c', rs)
    → t.message ≡ get_channel_balance_states node_id force si hi
    → run (before ++ (t ∷ after)) c ≡ blocks
run-get_channel_balance_states before after t c c' rs node_id force si hi h asks =
    run-blocked before after t c c' rs h (λ d.
      ap (λ m. process t.channel_cache m t.now d) asks
      ∙ get_channel_balance_states_blocks t.channel_cache d node_id t.now force si hi)

-- A balance below the capacity, neither of them negative, has the ratio 0.
per_mille_below : (b capacity : ℕ) → b < capacity → capacity < sign_bit → per_mille b capacity ≡ 0
per_mille_below b capacity h k =
    let whole : b / capacity ≡ 0 = grind arith in
    let not_neg : leb sign_bit b ≡ false = ground arith in
    let capacity_not_neg : leb sign_bit capacity ≡ false = ground arith in
    rw (not_neg, capacity_not_neg, whole)

-- The balance read of a cached channel of a ready node.
balance_read :
    (channels : ChannelTypes.Cache) (c : Cache) (n ch now : ℕ) (force : Bool) (hi : HtlcInclude)
    (s : Settings)
    → n ≢ 0
    → ch ≢ 0
    → is_node_ready c now n force ≡ true
    → find_channel c n ch ≡ some s
    → process channels (get_channel_balance_state n ch force hi) now c
      ≡ replying c (balance_of_channel channels (get_channel_balance_state n ch force hi) (some s))
unfolding process read_channel_balance_state get_channel_balance_state
balance_read channels c n ch now force hi s nz cz ready found =
    let given : (ch == 0 || n == 0) ≡ false = ground arith in rw (given, ready, found)

-- The balance read of a cached channel of a ready node panics exactly where the channel cache gives
-- the capacity 0, as it does for a channel that it does not know.
pub balance_read_panics :
    (channels : ChannelTypes.Cache) (c : Cache) (n ch now : ℕ) (force : Bool) (hi : HtlcInclude)
    (s : Settings)
    → n ≢ 0
    → ch ≢ 0
    → is_node_ready c now n force ≡ true
    → find_channel c n ch ≡ some s
    → (process channels (get_channel_balance_state n ch force hi) now c ≡ panics)
      ↔ ((channel_setting_of channels ch).capacity ≡ 0)
unfolding balance_of_channel process_htlc_include get_channel_balance_state
balance_read_panics channels c n ch now force hi s nz cz ready found =
    rw (balance_read channels c n ch now force hi s nz cz ready found) (ground arith)

-- Where the two balances are not negative and lie below the capacity, a balance read answers, with
-- both ratios 0: the division comes before the multiplication by 1000.
pub balance_read_ratio :
    (channels : ChannelTypes.Cache) (c : Cache) (n ch now : ℕ) (force : Bool) (hi : HtlcInclude)
    (s : Settings)
    → n ≢ 0
    → ch ≢ 0
    → is_node_ready c now n force ≡ true
    → find_channel c n ch ≡ some s
    → s.local_balance < (channel_setting_of channels ch).capacity
    → s.remote_balance < (channel_setting_of channels ch).capacity
    → (channel_setting_of channels ch).capacity < sign_bit
    → (b : BalanceState) × (process channels (get_channel_balance_state n ch force hi) now c
        ≡ returns (c, balance_state (some b)))
      × (b.local_balance_per_mille_ratio ≡ 0)
      × (b.remote_balance_per_mille_ratio ≡ 0)
unfolding balance_of_channel process_htlc_include get_channel_balance_state
balance_read_ratio channels c n ch now force hi s nz cz ready found l r k =
    let capacity : ℕ = (channel_setting_of channels ch).capacity in
    let b : BalanceState = record {
      node_id = n;
      remote_node_id = 0;
      channel_id = ch;
      htlc_include = hi;
      local_balance = included_local hi s;
      local_balance_per_mille_ratio = per_mille s.local_balance capacity;
      remote_balance = included_remote hi s;
      remote_balance_per_mille_ratio = per_mille s.remote_balance capacity;
    } in
    let positive : (capacity == 0) ≡ false = ground arith in
    (
      b,
      rw (balance_read channels c n ch now force hi s nz cz ready found, positive),
      per_mille_below s.local_balance capacity l k,
      per_mille_below s.remote_balance capacity r k,
    )

outgoing_found_returns :
    (id a : ℕ) (amt index : Option ℕ) (o : Option Settings) (m : Map ℕ Settings)
    → (m' : Map ℕ Settings) × (outgoing_found id (some a) amt index o m ≡ returns m')
unfolding outgoing_found
outgoing_found_returns id a (some amt) (some index) (some s) m =
    (insert id (apply_outgoing a amt index s) m, refl)
outgoing_found_returns id a _ _ _ m = (m, refl)

outgoing_half_returns :
    (e : HtlcEvent) (a : ℕ) (id : Option ℕ) (m : Map ℕ Settings)
    → e.incoming_amt_msat ≡ some a
    → (m' : Map ℕ Settings) × (outgoing_half e id m ≡ returns m')
unfolding outgoing_half
outgoing_half_returns e a none m amount = (m, refl)
outgoing_half_returns e a (some id) m amount = elim (Bool-cases (id == 0)) [
  | inl empty ↦ (m, rw empty)
  | inr given ↦
      let (m', q) =
        outgoing_found_returns id a e.outgoing_amt_msat e.outgoing_htlc_id (lookup id m) m in
      (m', rw given (rw amount q))
]

-- An HTLC event that carries its incoming amount is handled: the cache neither panics nor waits.
pub htlc_event_returns :
    (channels : ChannelTypes.Cache) (c : Cache) (e : HtlcEvent) (now a : ℕ)
    → e.incoming_amt_msat ≡ some a
    → (c' : Cache) × (process channels (set_channel_state_balance_htlc_event e) now c
        ≡ returns (c', no_reply))
unfolding process set_channel_state_balance_htlc_event write_update_htlc_event
htlc_event_returns channels c e now a amount = elim (Bool-cases (is_ignored e)) [
  | inl ignored ↦ (c, rw ignored)
  | inr taken ↦ elim (Option-cases (lookup e.node_id c.channels)) [
    | inl absent ↦ (c, rw (taken, absent))
    | inr (m, found) ↦
        let before : Map ℕ Settings = incoming_half e e.incoming_channel_id m in
        let (m', q) = outgoing_half_returns e a e.outgoing_channel_id before amount in
        (put_channels c e.node_id m', rw (taken, found) (rw q))
  ]
]
