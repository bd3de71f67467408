-- ===== src/Broadcast/Tests.antt =====
-- A small run of the broadcaster, and the theorems at it (pkg/broadcast/broadcast.go).
use torq.Prelude.{ℕ, ◌≤◌, ◌≡◌, refl, false, none, some, List, [], ◌∷◌, arith, any}
use torq.Runtime.{returns}
use torq.Broadcast.Serve.{
  Request, source_value, Server, subscribe, cancel_subscription, position, set_at, last_or,
  drop_last, close, sends, step, run, close_all, context_done, source_closed, serve,
}
use torq.Broadcast.Counting.{closings}
use torq.Broadcast.Tidy.{additions}
use torq.Broadcast.Delivery.{received, values_of}
use torq.Broadcast.Received.{serve-received}
use torq.Broadcast.Closing.{serve-closed}

-- Three listeners; the first leaves, so the last takes its place.
abbrev requests : List (Request ℕ)
requests =
    subscribe 1
    ∷ source_value 50
    ∷ subscribe 2
    ∷ subscribe 3
    ∷ source_value 51
    ∷ cancel_subscription (some 1)
    ∷ source_value 52
    ∷ cancel_subscription (some 9)
    ∷ []

served :
    serve requests source_closed
    ≡ returns (record {
      listeners = some 3 ∷ some 2 ∷ [];
      sent = (1, 50) ∷ (1, 51) ∷ (2, 51) ∷ (3, 51) ∷ (3, 52) ∷ (2, 52) ∷ [];
      closed = 2 ∷ 3 ∷ 1 ∷ [];
    })
unfolding serve run step sends position set_at last_or drop_last close close_all any subscribe
    cancel_subscription
served = refl

added_once : (y : ℕ) → additions (some y) requests ≤ 1
unfolding additions subscribe cancel_subscription
added_once y = ground arith

none_nil : additions none requests ≡ 0
unfolding additions subscribe cancel_subscription
none_nil = omega arith

serve-received_example :
    (s : Server ℕ) × (serve requests context_done ≡ returns s)
    × ((ch : ℕ) → values_of ch s.sent ≡ received ch false requests)
serve-received_example = serve-received requests context_done added_once none_nil tt

serve-closed_example :
    (s : Server ℕ) × (serve requests source_closed ≡ returns s)
    × ((y : ℕ) → closings y s.closed ≡ additions (some y) requests)
serve-closed_example = serve-closed requests source_closed added_once none_nil
