-- ===== src/Broadcast/Serve.antt =====
-- pkg/broadcast/broadcast.go: the goroutine `serve` and what it is asked. A channel is known by a
-- number, and a nil channel is `none`.
use torq.Prelude.{
  ℕ, zero, suc, Bool, true, false, Option, none, some, List, [], ◌∷◌, ◌++◌, ◌==◌, any,
  if◌then◌else◌,
}
use torq.Runtime.{Outcome, returns, panics, ◌>>=◌}

abbrev pub same_channel : Option ℕ → Option ℕ → Bool
same_channel none none = true
same_channel (some a) (some b) = a == b
same_channel _ _ = false

-- What the loop takes from its three channels.
pub data Request {ℓ} (V : Type ℓ) : Type ℓ where
  add_listener : Option ℕ → Request V
  remove_listener : Option ℕ → Request V
  source_value : V → Request V

-- How the loop ends: the context is done between two requests, the source is closed, or the context
-- is done while a value is delivered, after `sent` listeners have it.
pub data End {ℓ} (V : Type ℓ) : Type ℓ where
  context_done : End V
  source_closed : End V
  cut_off : V → (sent : ℕ) → End V

-- The listeners, with the history of the values that were sent and of the channels that were closed.
pub record Server {ℓ} (V : Type ℓ) : Type ℓ where
  pub listeners : List (Option ℕ)
  pub sent : List (ℕ × V)
  pub closed : List ℕ

-- The first index at which the channel stands.
unfoldable pub position : Option ℕ → List (Option ℕ) → Option ℕ
position ch [] = none
position ch (x ∷ l) =
    let rest = position ch l in
    if same_channel x ch then some zero else elim rest [ none ↦ none | some i ↦ some (suc i) ]

-- `s[i] = x`, `s[len(s)-1]` and `s[:len(s)-1]`
unfoldable pub set_at {ℓ} : {A : Type ℓ} → ℕ → A → List A → List A
set_at i x [] = []
set_at zero x (y ∷ l) = x ∷ l
set_at (suc i) x (y ∷ l) = y ∷ set_at i x l

unfoldable pub last_or {ℓ} : {A : Type ℓ} → A → List A → A
last_or x [] = x
last_or x (y ∷ l) = last_or y l

unfoldable pub drop_last {ℓ} : {A : Type ℓ} → List A → List A
drop_last [] = []
drop_last (x ∷ []) = []
drop_last (x ∷ y ∷ l) = x ∷ drop_last (y ∷ l)

module _ {ℓ} {V : Type ℓ} where
  -- `close(ch)` panics on a nil channel and on one that is closed.
  unfoldable pub close : Option ℕ → Server V → Outcome (Server V)
  close none s = panics
  close (some ch) s =
      if any (λ x. x == ch) s.closed then panics else returns (record s { closed = ch ∷ s.closed })

  -- The last listener takes the place of the removed one.
  abbrev pub remove_at : ℕ → Option ℕ → Server V → Outcome (Server V)
  remove_at i ch s =
      close ch (record s { listeners = drop_last (set_at i (last_or ch s.listeners) s.listeners) })

  abbrev pub remove_found : Option ℕ → Option ℕ → Server V → Outcome (Server V)
  remove_found none ch s = returns s
  remove_found (some i) ch s = remove_at i ch s

  -- The value goes to every listener that is not nil, in order.
  unfoldable pub sends : V → List (Option ℕ) → List (ℕ × V)
  sends v [] = []
  sends v (none ∷ l) = sends v l
  sends v (some ch ∷ l) = (ch, v) ∷ sends v l

  abbrev pub delivering : List (ℕ × V) → Server V → Server V
  delivering l s = record s { sent = s.sent ++ l }

  unfoldable pub step : Request V → Server V → Outcome (Server V)
  step (add_listener ch) s = returns (record s { listeners = s.listeners ++ (ch ∷ []) })
  step (remove_listener ch) s = remove_found (position ch s.listeners) ch s
  step (source_value v) s = returns (delivering (sends v s.listeners) s)

  unfoldable pub run : List (Request V) → Server V → Outcome (Server V)
  run [] s = returns s
  run (r ∷ l) s = step r s >>= run l

  -- The first elements of a list.
  unfoldable pub prefix : ℕ → List (ℕ × V) → List (ℕ × V)
  prefix zero l = []
  prefix (suc i) [] = []
  prefix (suc i) (x ∷ l) = x ∷ prefix i l

  -- The deferred function closes the listeners that are not nil.
  unfoldable pub close_all : List (Option ℕ) → Server V → Outcome (Server V)
  close_all [] s = returns s
  close_all (none ∷ l) s = close_all l s
  close_all (some ch ∷ l) s = close (some ch) s >>= close_all l

  abbrev pub at_end : End V → Server V → Server V
  at_end context_done s = s
  at_end source_closed s = s
  at_end (cut_off v sent) s = delivering (prefix sent (sends v s.listeners)) s

  abbrev pub finish : End V → Server V → Outcome (Server V)
  finish e s = close_all s.listeners (at_end e s)

  abbrev pub empty : Server V
  empty = record { listeners = []; sent = []; closed = [] }

  -- `NewBroadcastServer` starts `serve` with no listeners.
  unfoldable pub serve : List (Request V) → End V → Outcome (Server V)
  serve l e = run l empty >>= finish e

-- `Subscribe` asks for a channel that it makes, and `CancelSubscription` for the one it is given.
unfoldable pub subscribe {ℓ} : {V : Type ℓ} → (new_listener : ℕ) → Request V
subscribe new_listener = add_listener (some new_listener)

unfoldable pub cancel_subscription {ℓ} : {V : Type ℓ} → Option ℕ → Request V
cancel_subscription channel = remove_listener channel
