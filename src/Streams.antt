-- ===== src/Streams.antt =====
-- The loops that receive from LND until the stream ends (internal/channels/open_channel.go,
-- close_channel.go, internal/payments/new_payment.go). A stream is the list of what `Recv` gives.
use mathlib.Core.List.{append-nil}
use torq.Prelude.{
  Option, none, some, ◌∙◌, Bool, true, false, List, [], ◌∷◌, ◌++◌, map, ◌≡◌, refl, ap,
  if◌then◌else◌,
}
use torq.Runtime.{Result, ok, fails}

-- What one `Recv` gives. `E` is what the loop looks at in an error.
pub data Received (U E : Type 0) : Type 0 where
  update : U → Received U E
  end_of_file : Received U E
  failure : E → Received U E

-- How a loop ends: with nil, with an error, or not, where the stream gives nothing more.
pub data Ended (F : Type 0) : Type 0 where
  finished : Ended F
  failed_with : F → Ended F
  waits : Ended F

abbrev pub event : {R : Type 0} → Bool → R → List R
event listening r = if listening then r ∷ [] else []

-- An event before those that follow. A response that cannot be made ends the loop.
abbrev pub respond : {R F : Type 0} → F → Bool → Result R → Ended F × List R → Ended F × List R
respond refused listening (fails e) rest = (failed_with refused, [])
respond refused listening (ok r) rest = (rest.0, event listening r ++ rest.1)

module _ {U E R F : Type 0} (process : U → Result R) (refused : F) (on_failure : E → F)
    (listening : Bool) where
  -- The loop, with the events that it sends where there is an event channel.
  unfoldable pub receive : List (Received U E) → Ended F × List R
  receive [] = (waits, [])
  receive (end_of_file ∷ l) = (finished, [])
  receive (failure e ∷ l) = (failed_with (on_failure e), [])
  receive (update u ∷ l) = respond refused listening (process u) (receive l)

-- The end of a stream, where none is its regular end, and what the loop makes of it.
abbrev pub stop : {U E : Type 0} → Option E → Received U E
stop none = end_of_file
stop (some e) = failure e

abbrev pub outcome : {E F : Type 0} → (E → F) → Option E → Ended F
outcome on_failure none = finished
outcome on_failure (some e) = failed_with (on_failure e)

-- The updates of a stream, all of which have a response, and what ends it.
module _ {U E R F : Type 0} (process : U → Result R) (refused : F) (on_failure : E → F) where
  pub receive-events :
      (listening : Bool) (response : U → R) (us : List U) (rest : List (Received U E))
      → ((u : U) → process u ≡ ok (response u))
      → receive process refused on_failure listening (map update us ++ rest) ≡ (
        (receive process refused on_failure listening rest).0,
        (if listening then map response us else [])
            ++ (receive process refused on_failure listening rest).1,
      )
  unfolding receive
  receive-events true response [] rest h = refl
  receive-events false response [] rest h = refl
  receive-events true response (u ∷ us) rest h =
      rw (h u) (ap (λ q. (q.0, response u ∷ q.1)) (receive-events true response us rest h))
  receive-events false response (u ∷ us) rest h = rw (h u) (receive-events false response us rest h)

  -- The same for updates and the end of the stream behind them.
  pub receive-all :
      (listening : Bool) (response : U → R) (us : List U) (last : Option E)
      (rest : List (Received U E))
      → ((u : U) → process u ≡ ok (response u))
      → receive process refused on_failure listening (map update us ++ (stop last ∷ rest))
        ≡ (outcome on_failure last, if listening then map response us else [])
  unfolding receive
  receive-all listening response us none rest h =
      receive-events listening response us (end_of_file ∷ rest) h
      ∙ ap (λ l. (finished, l)) (append-nil _)
  receive-all listening response us (some e) rest h =
      receive-events listening response us (failure e ∷ rest) h
      ∙ ap (λ l. (failed_with (on_failure e), l)) (append-nil _)
