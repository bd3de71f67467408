-- ===== src/BalanceCache/Counters.antt =====
-- The counters of pending HTLCs of a channel that LND lists (pkg/lnd/channelBalanceCache.go).
use torq.Prelude.{ℕ, ◌+◌, ◌%◌, ◌<◌, ◌≡◌, not, List, [], ◌∷◌, length, select, nat_eq}
use torq.Words.{word}
use torq.ChannelState.Types.{Htlc}
use torq.BalanceCache.Initial.{Counters, is_incoming}

unfoldable pub total : List Htlc → ℕ
total [] = 0
total (h ∷ l) = h.amount + total l

abbrev incomings : List Htlc → List Htlc
incomings l = select is_incoming l

abbrev outgoings : List Htlc → List Htlc
outgoings l = select (λ h. not (is_incoming h)) l

-- The counters after the loop, from any start.
record Counts (l : List Htlc) (k k' : Counters) : Type 0 where
  ic : k'.incoming_count % word ≡ (k.incoming_count + length (incomings l)) % word
  ia : k'.incoming_amount % word ≡ (k.incoming_amount + total (incomings l)) % word
  oc : k'.outgoing_count % word ≡ (k.outgoing_count + length (outgoings l)) % word
  oa : k'.outgoing_amount % word ≡ (k.outgoing_amount + total (outgoings l)) % word

-- The counters stay below 2 ^ 64.
abbrev IsSmall : Counters → Type 0
IsSmall k =
    (k.incoming_count < word)
    × (k.incoming_amount < word)
    × (k.outgoing_count < word)
    × (k.outgoing_amount < word)
