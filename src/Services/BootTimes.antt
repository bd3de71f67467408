-- ===== src/Services/BootTimes.antt =====
-- What is active has a boot time (pkg/commons/services.go, `GetBootTime`, `GetStreamBootTime`).
use torq.Prelude.{ℕ, ◌≡◌, refl, ◌≢◌, Option, none, some, List, [], ◌∷◌, ◌++◌, ◌↔◌, subst, nat_eq}
use torq.Prelude.Map.{lookup}
use torq.Runtime.{Outcome, returns, panics, blocks, ◌>>=◌}
use torq.Constants.{
  ServiceType, Status, inactive, active, pending, deleted, initializing, SubscriptionStream,
}
use torq.Services.Types.{stream_eq, Services, Effect}
use torq.Services.Operations.{init_service_maps, status_or_zero, status_of, stream_status_of}
use torq.Services.Calls.{Call, step, run}
use torq.Services.Reads.{
  streams_of, time_if, exists_active, status_guard, get_stream_status, get_stream_boot_time,
  get_boot_time,
}
use torq.Services.Activation.{
  stream_time_of, HasBootTimes, ActivatesNone-HasBootTimes, init-ActivatesNone,
}
use torq.Services.BootSteps.{OnReturn, step-HasBootTimes}

bind-HasBootTimes :
    (o : Outcome (Services × List Effect)) (l : List (Call × ℕ))
    → OnReturn o
    → ((rs : Services) → HasBootTimes rs → OnReturn (run l rs))
    → OnReturn (o >>= λ r. run l r.0 >>= λ q. returns (q.0, r.1 ++ q.1))
bind-HasBootTimes (returns r) l h g = ends (run l r.0) (g r.0 h)
  where
    ends :
        (o : Outcome (Services × List Effect))
        → OnReturn o
        → OnReturn (o >>= λ q. returns (q.0, r.1 ++ q.1))
    ends (returns q) k = k
    ends panics k = tt
    ends blocks k = tt
bind-HasBootTimes panics l h g = tt
bind-HasBootTimes blocks l h g = tt

run-OnReturn : (l : List (Call × ℕ)) (rs : Services) → HasBootTimes rs → OnReturn (run l rs)
unfolding run
run-OnReturn [] rs h = h
run-OnReturn ((c, now) ∷ l) rs h =
    bind-HasBootTimes (step c now rs) l (step-HasBootTimes c now rs h) (run-OnReturn l)

pub run-HasBootTimes :
    (l : List (Call × ℕ)) (rs rs' : Services) (sent : List Effect)
    → HasBootTimes rs
    → run l rs ≡ returns (rs', sent)
    → HasBootTimes rs'
run-HasBootTimes l rs rs' sent h e = subst OnReturn e (run-OnReturn l rs h)

abbrev pub empty : ServiceType → Services
empty t = record {
  service_type = t;
  service_status = [];
  running_list = [];
  boot_lock = [];
  boot_time = [];
  cancel_time = [];
  enforced_service_status = [];
  no_delay = [];
  stream_status = [];
  stream_boot_time = [];
  stream_initialization_ping_time = [];
  include_incomplete = [];
}

active_iff :
    (o : Option Status) (t : Option ℕ)
    → (status_or_zero o ≡ active → t ≢ none)
    → (time_if (exists_active o) t ≢ none) ↔ (status_or_zero o ≡ active)
active_iff none t h = (λ g. elim (g refl) [ ], λ e. cc)
active_iff (some active) t h = (λ g. refl, h)
active_iff (some inactive) t h = (λ g. elim (g refl) [ ], λ e. cc)
active_iff (some pending) t h = (λ g. elim (g refl) [ ], λ e. cc)
active_iff (some deleted) t h = (λ g. elim (g refl) [ ], λ e. cc)
active_iff (some initializing) t h = (λ g. elim (g refl) [ ], λ e. cc)

guarded_iff :
    (o : Option Status) (t : Option ℕ) (s : Status)
    → (t ≢ none) ↔ (s ≡ active)
    → (time_if (exists_active o) t ≢ none) ↔ (status_guard o s ≡ active)
guarded_iff none t s h = (λ g. elim (g refl) [ ], λ e. cc)
guarded_iff (some active) t s h = h
guarded_iff (some inactive) t s h = (λ g. elim (g refl) [ ], λ e. cc)
guarded_iff (some pending) t s h = (λ g. elim (g refl) [ ], λ e. cc)
guarded_iff (some deleted) t s h = (λ g. elim (g refl) [ ], λ e. cc)
guarded_iff (some initializing) t s h = (λ g. elim (g refl) [ ], λ e. cc)

empty-HasBootTimes : (t : ServiceType) → HasBootTimes (empty t)
unfolding lookup
empty-HasBootTimes t = (λ n e. cc, λ n ss e. cc)

-- After every run from the start, an active service has a boot time, and a stream that
-- `GetStreamStatus` finds active has a stream boot time, and no other has one.
pub run-boot_times :
    (t : ServiceType) (l : List (Call × ℕ)) (rs : Services) (sent : List Effect) (n : ℕ)
    (ss : SubscriptionStream)
    → run l (empty t) ≡ returns (rs, sent)
    → (((get_stream_boot_time n ss rs).1 ≢ none) ↔ ((get_stream_status n ss rs).1 ≡ active))
      × (((get_boot_time n rs).1 ≢ none) ↔ (status_of n rs ≡ active))
unfolding get_stream_boot_time get_stream_status get_boot_time
run-boot_times t l rs sent n ss e =
    let good = run-HasBootTimes l (empty t) rs sent (empty-HasBootTimes t) e in
    let rs1 = init_service_maps n rs in
    let good1 = ActivatesNone-HasBootTimes rs rs1 (init-ActivatesNone n rs) good in
    let stream =
      active_iff (lookup ss (streams_of n rs1)) (stream_time_of n ss rs1) (good1.1 n ss) in
    (
      guarded_iff (lookup n rs.service_status) _ (stream_status_of n ss rs1) stream,
      active_iff (lookup n rs.service_status) (lookup n rs.boot_time) (good.0 n),
    )
