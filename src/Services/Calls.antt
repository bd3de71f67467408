-- ===== src/Services/Calls.antt =====
-- The calls that change the state of `Services` (pkg/commons/services.go), and runs of them.
use torq.Prelude.{ℕ, Bool, true, Option, List, [], ◌∷◌, ◌++◌}
use torq.Runtime.{Outcome, returns, ◌>>=◌}
use torq.Constants.{Status, SubscriptionStream}
use torq.Services.Types.{stream_eq, Services, Effect}
use torq.Services.Operations.{
  add_subscription, remove_subscription, cancel, get_enforced_service_status_check, is_no_delay,
  get_boot_lock, try_lock, set_include_incomplete, initialising, booted, set_stream_status,
}
use torq.Services.Reads.{get_status}

-- Each carries the node and the arguments. `reads` is any of the calls that only make the maps.
pub data Call : Type 0 where
  adds : ℕ → (cancel_func : ℕ) → Call
  removes : ℕ → Call
  cancels : ℕ → (enforced : Option Status) → (no_delay : Bool) → Call
  takes_enforced : ℕ → Call
  takes_no_delay : ℕ → Call
  takes_lock : ℕ → Call
  tries_lock : ℕ → Call
  sets_include : ℕ → Bool → Call
  initialises : ℕ → Call
  boots : ℕ → (lock : Option ℕ) → Call
  sets_stream : ℕ → SubscriptionStream → Status → Call
  reads : ℕ → Call

abbrev answerless : {A : Type 0} → Services × List Effect × A → Services × List Effect
answerless r = (r.0, r.1)

-- One call with an event channel that is there.
unfoldable pub step : Call → ℕ → Services → Outcome (Services × List Effect)
step (adds n f) now rs = returns (add_subscription n f true now rs)
step (removes n) now rs = returns (remove_subscription n true now rs)
step (cancels n e d) now rs = returns (answerless (cancel n e d true now rs))
step (takes_enforced n) now rs = returns ((get_enforced_service_status_check n rs).0, [])
step (takes_no_delay n) now rs = returns ((is_no_delay n rs).0, [])
step (takes_lock n) now rs = returns ((get_boot_lock n rs).0, [])
step (tries_lock l) now rs = returns ((try_lock l rs).0, [])
step (sets_include n b) now rs = returns (set_include_incomplete n b rs, [])
step (initialises n) now rs = returns (initialising n true now rs)
step (boots n lock) now rs = booted n lock true now rs
step (sets_stream n ss s) now rs = returns (set_stream_status n ss s true now rs)
step (reads n) now rs = returns ((get_status n rs).0, [])

-- The calls in the order in which they get the mutex, with their times.
unfoldable pub run : List (Call × ℕ) → Services → Outcome (Services × List Effect)
run [] rs = returns (rs, [])
run ((c, now) ∷ l) rs = step c now rs >>= λ r. run l r.0 >>= λ q. returns (q.0, r.1 ++ q.1)
