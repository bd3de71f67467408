-- ===== src/BalanceCache/Forwards.antt =====
-- What a forward through two channels does to their balances (pkg/lnd/channelBalanceCache.go).
use torq.Prelude.{
  ℕ, ◌+◌, ◌/◌, ◌≤◌, ◌<◌, ◌≡◌, sym, ◌∙◌, ◌≢◌, Bool, true, false, ◌||◌, some, arith, ◌==◌, nat_eq,
  if◌then◌else◌,
}
use torq.Prelude.Map.{insert}
use torq.Words.{word, neg64}
use torq.Runtime.{returns}
use torq.Events.{ForwardEvent}
use torq.ChannelCache.Types as ChannelTypes
use torq.ChannelState.Types.{Settings, no_reply, Cache}
use torq.ChannelState.Reads.{find_channel}
use torq.ChannelState.Writes.{update_channel, apply_balance, write_update_balance}
use torq.ChannelState.Process.{dispatch, process}
use torq.ChannelState.Clients.{set_channel_state_balance_update_msat}
use torq.ChannelState.Find.{find-update_channel_self}
use torq.ChannelState.Frame.Writes.{find-update_channel_frame, lookup-insert_ne}
use torq.BalanceCache.Types.{LndCodes, forward_event}
use torq.BalanceCache.Dispatch.{on_forward, process_broadcasted_event}
use torq.BalanceCache.Deliver.{deliver, handle}

-- The amount that a change of a balance adds, in whole satoshis.
abbrev change : Bool → ℕ → ℕ
change up amount = if up then amount / 1000 else neg64 (amount / 1000)

abbrev changed : Cache → ℕ → ℕ → Bool → ℕ → Cache
changed c n ch up amount =
    update_channel (λ s b. insert ch (apply_balance (change up amount) s) b) c n ch

changes :
    (channels : ChannelTypes.Cache) (now : ℕ) (c : Cache) (n ch : ℕ) (up : Bool) (amount : ℕ)
    → n ≢ 0
    → ch ≢ 0
    → process channels (set_channel_state_balance_update_msat n ch up amount) now c
      ≡ returns (changed c n ch up amount, no_reply)
unfolding process dispatch write_update_balance set_channel_state_balance_update_msat
changes channels now c n ch up amount nz cz =
    let given : (ch == 0 || n == 0) ≡ false = ground arith in rw given

changed_self :
    (c : Cache) (n ch : ℕ) (up : Bool) (amount : ℕ) (s : Settings)
    → find_channel c n ch ≡ some s
    → find_channel (changed c n ch up amount) n ch ≡ some (apply_balance (change up amount) s)
changed_self c n ch up amount s found =
    ground (arith, find-update_channel_self (apply_balance (change up amount)) c n ch)

changed-other :
    (c : Cache) (n ch : ℕ) (up : Bool) (amount other : ℕ)
    → ch ≢ other
    → find_channel (changed c n ch up amount) n other ≡ find_channel c n other
changed-other c n ch up amount other ne =
    find-update_channel_frame (λ s b. insert ch (apply_balance (change up amount) s) b) c n ch n
      other (λ h s b. lookup-insert_ne ch other (apply_balance (change up amount) s) b h)
      (λ p. ne p.1)

-- A forward that comes in over one cached channel and goes out over another one raises the local
-- balance of the first by the amount in and lowers that of the second by the amount out, both cut
-- to whole satoshis, where the first stays below 2 ^ 64 and the second covers its part.
pub forward_moves :
    (l : LndCodes) (channels : ChannelTypes.Cache) (now : ℕ) (c : Cache) (e : ForwardEvent)
    (i o : ℕ) (a b : Settings)
    → e.node_id ≢ 0
    → i ≢ 0
    → o ≢ 0
    → i ≢ o
    → e.incoming_channel_id ≡ some i
    → e.outgoing_channel_id ≡ some o
    → find_channel c e.node_id i ≡ some a
    → find_channel c e.node_id o ≡ some b
    → a.local_balance + e.amount_in_msat / 1000 < word
    → e.amount_out_msat / 1000 ≤ b.local_balance
    → b.local_balance < word
    → (c' : Cache) × (handle l channels now (forward_event e) c ≡ returns c')
      × ((a' : Settings) × (find_channel c' e.node_id i ≡ some a')
          × (a'.local_balance ≡ a.local_balance + e.amount_in_msat / 1000))
      × ((b' : Settings) × (find_channel c' e.node_id o ≡ some b')
          × (b'.local_balance + e.amount_out_msat / 1000 ≡ b.local_balance))
unfolding handle process_broadcasted_event on_forward deliver apply_balance
forward_moves l channels now c e i o a b nz iz oz ne incoming outgoing at_i at_o fits covered
      small =
    let n = e.node_id in
    let c1 : Cache = changed c n i true e.amount_in_msat in
    let c2 : Cache = changed c1 n o false e.amount_out_msat in
    let given : (n == 0) ≡ false = ground arith in
    let second : find_channel c1 n o ≡ some b =
      changed-other c n i true e.amount_in_msat o ne ∙ at_o in
    (
      c2,
      rw (
        given,
        incoming,
        outgoing,
        changes channels now c n i true e.amount_in_msat nz iz,
        changes channels now c1 n o false e.amount_out_msat nz oz,
      ),
      (
        apply_balance (change true e.amount_in_msat) a,
        changed-other c1 n o false e.amount_out_msat i (λ h. ne (sym h))
            ∙ changed_self c n i true e.amount_in_msat a at_i,
        omega arith,
      ),
      (
        apply_balance (change false e.amount_out_msat) b,
        changed_self c1 n o false e.amount_out_msat b second,
        omega arith,
      ),
    )
