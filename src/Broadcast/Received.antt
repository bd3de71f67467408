-- ===== src/Broadcast/Received.antt =====
-- What each listener receives over a whole run of `serve` (pkg/broadcast/broadcast.go).
use torq.Prelude.{ℕ, ◌≤◌, ◌≡◌, refl, ap, ◌∙◌, false, none, some, List, []}
use torq.Runtime.{returns}
use torq.Broadcast.Serve.{
  Request, Server, empty, End, context_done, source_closed, cut_off, at_end, serve,
}
use torq.Broadcast.Counting.{count}
use torq.Broadcast.Tidy.{additions, after_all}
use torq.Broadcast.Delivery.{received, values_of, after_all-values}
use torq.Broadcast.Closing.{start-IsTidy, serve-returns}

start_count : (ch : ℕ) → count (some ch) [] ≡ 0
unfolding count
start_count ch = refl

module _ {ℓ} {V : Type ℓ} where
  -- The loop does not end while a value is delivered.
  abbrev pub IsWhole : End V → Type 0
  IsWhole (cut_off v sent) = ⊥
  IsWhole _ = Unit

  whole-sent : (e : End V) (s : Server V) → IsWhole e → (at_end e s).sent ≡ s.sent
  whole-sent context_done s h = refl
  whole-sent source_closed s h = refl
  whole-sent (cut_off v sent) s h = absurd h

  -- Where no channel is subscribed twice and none is nil, and no value is cut off at the end, the loop
  -- does not fail, and each channel has received the values that the source gave while the channel
  -- was subscribed, each once and in the order of the source. It does not matter which listeners
  -- stand beside it, nor how their list is reordered.
  pub serve-received :
      (l : List (Request V)) (e : End V)
      → ((y : ℕ) → additions (some y) l ≤ 1)
      → additions none l ≡ 0
      → IsWhole e
      → (s : Server V) × (serve l e ≡ returns s)
        × ((ch : ℕ) → values_of ch s.sent ≡ received ch false l)
  unfolding values_of
  serve-received l e once no_nil whole =
      let (s, done, same, closed) = serve-returns l e once no_nil in
      (
        s,
        done,
        λ ch.
            ap (values_of ch) (same ∙ whole-sent e (after_all l empty) whole)
            ∙ after_all-values ch l empty false (start-IsTidy l once no_nil) (start_count ch),
      )
