-- ===== src/Services/BootSteps.antt =====
-- Each call of `Services` keeps the boot times (pkg/commons/services.go).
use torq.Prelude.{
  ℕ, ◌≡◌, refl, ◌≢◌, inl, inr, Bool, true, false, Bool-cases, Option, none, some, List, arith,
  nat_eq, if◌then◌else◌,
}
use torq.Prelude.Map.{lookup, insert, delete, lookup-insert}
use torq.Runtime.{Outcome, returns, panics, blocks}
use torq.Constants.{Status, inactive, active, pending, deleted, initializing, SubscriptionStream}
use torq.Services.Types.{stream_eq, Services, Effect}
use torq.Services.Operations.{
  init_service_maps, status_of, set_status, set_lnd_stream_statuses, stopped, forget, added,
  removed, now_booted, restreamed, pinged, stream_booted, set_stream_status, is_locked,
}
use torq.Services.Calls.{
  Call, adds, removes, cancels, takes_enforced, takes_no_delay, takes_lock, tries_lock,
  sets_include, initialises, boots, sets_stream, reads, step,
}
use torq.Services.Operations.{
  add_subscription, remove_subscription, cancel, cancel_running, get_enforced_service_status_check,
  is_no_delay, get_boot_lock, try_lock, try_locked, set_include_incomplete, initialising, booted,
}
use torq.Services.Reads.{get_status}
use torq.Services.Activation.{
  HasBootTimes, ActivatesNone, ActivatesNone-HasBootTimes, ActivatesNone-trans, init-ActivatesNone,
  both-ActivatesNone, lnd-ActivatesNone, status-ActivatesNone, streams-ActivatesNone,
  set_stream-read, restreamed-ActivatesNone,
}

-- A call that activates nothing, after the maps of its node are made.
after_init :
    (n : ℕ) (rs rs' : Services)
    → ActivatesNone (init_service_maps n rs) rs'
    → HasBootTimes rs
    → HasBootTimes rs'
after_init n rs rs' a =
    ActivatesNone-HasBootTimes rs rs'
      (ActivatesNone-trans rs (init_service_maps n rs) rs' (init-ActivatesNone n rs) a)

unchanged : (rs : Services) → ActivatesNone rs rs
unchanged rs = (λ k e. e, λ k. refl, λ k ss e. e, λ k ss. refl)

not_inactive : inactive ≢ active
not_inactive h = cc

not_pending : pending ≢ active
not_pending h = cc

-- The state that a call leaves, where it returns.
abbrev pub OnReturn : Outcome (Services × List Effect) → Type 0
OnReturn (returns r) = HasBootTimes r.0
OnReturn panics = Unit
OnReturn blocks = Unit

removed-HasBootTimes : (n : ℕ) (rs : Services) → HasBootTimes rs → HasBootTimes (removed n rs)
removed-HasBootTimes n rs = after_init n rs (removed n rs) (forgotten (lookup n rs.running_list))
  where
    rs1 : Services
    rs1 = init_service_maps n rs

    forgotten :
        (o : Option ℕ) → ActivatesNone rs1 (set_lnd_stream_statuses n inactive (forget o n rs1))
    forgotten none = lnd-ActivatesNone n inactive rs1 not_inactive
    forgotten (some f) =
        both-ActivatesNone n inactive inactive
          (record rs1 { running_list = delete n rs1.running_list }) not_inactive not_inactive

cancel-HasBootTimes :
    (n now : ℕ) (e : Option Status) (d : Bool) (rs : Services)
    → HasBootTimes rs
    → HasBootTimes (cancel n e d true now rs).0
unfolding cancel
cancel-HasBootTimes n now e d rs =
    after_init n rs
      (cancel_running (lookup n rs.running_list) n e d true now (init_service_maps n rs)).0
      (running (lookup n rs.running_list))
  where
    rs1 : Services
    rs1 = init_service_maps n rs

    halted : ActivatesNone rs1 (stopped n e d now rs1)
    halted =
        ActivatesNone-trans rs1 (set_status n inactive rs1) (stopped n e d now rs1)
          (status-ActivatesNone n inactive rs1 not_inactive)
          (streams-ActivatesNone n inactive (set_status n inactive rs1) not_inactive)

    running : (o : Option ℕ) → ActivatesNone rs1 (cancel_running o n e d true now rs1).0
    running none = unchanged rs1
    running (some f) = elim (Bool-cases (is_locked (lookup n rs.boot_lock))) [
      | inl locked ↦ rw locked (unchanged rs1)
      | inr free ↦ rw free halted
    ]

-- The boot of a service: it alone becomes active, with a time, and no stream does.
now_booted-HasBootTimes :
    (n now : ℕ) (rs : Services) → HasBootTimes rs → HasBootTimes (now_booted n now rs)
now_booted-HasBootTimes n now rs h =
    ActivatesNone-HasBootTimes mid (now_booted n now rs)
      (lnd-ActivatesNone n pending mid not_pending)
      (
        service,
        (ActivatesNone-HasBootTimes rs (init_service_maps n rs) (init-ActivatesNone n rs) h).1,
      )
  where
    mid : Services
    mid =
        set_status n active
          (record (init_service_maps n rs) { boot_time = insert n now rs.boot_time })

    service : (k : ℕ) → status_of k mid ≡ active → lookup k mid.boot_time ≢ none
    service k e missing =
        let was = h.0 k in
        ground
          (arith, lookup-insert n k active rs.service_status, lookup-insert n k now rs.boot_time)

-- A stream that takes a status that is not Active, or has it already.
quiet :
    (b : Bool) (n : ℕ) (ss : SubscriptionStream) (s : Status) (rs : Services) (l k : List Effect)
    → s ≢ active
    → ActivatesNone rs
        (if◌then◌else◌ {A = Services × List Effect} b (rs, l) (restreamed n ss s rs, k)).0
quiet true n ss s rs l k ne = unchanged rs
quiet false n ss s rs l k ne = restreamed-ActivatesNone n ss s rs ne

-- A stream that becomes active gets its time at once.
stream_booted-HasBootTimes :
    (b : Bool) (n now : ℕ) (ss : SubscriptionStream) (rs : Services) (l k : List Effect)
    → HasBootTimes rs
    → HasBootTimes
        (if◌then◌else◌ {A = Services × List Effect} b
          (rs, l)
          (stream_booted n ss active now (restreamed n ss active rs), k)).0
stream_booted-HasBootTimes true n now ss rs l k h = h
stream_booted-HasBootTimes false n now ss rs l k h = (
  h.0,
  λ j st e missing.
      let was = h.1 j st in
      ground (
        arith,
        set_stream-read j n ss st active rs.stream_status,
        set_stream-read j n ss st now rs.stream_boot_time,
      ),
)

set_stream-HasBootTimes :
    (n now : ℕ) (ss : SubscriptionStream) (s : Status) (rs : Services)
    → HasBootTimes rs
    → HasBootTimes (set_stream_status n ss s true now rs).0
unfolding set_stream_status
set_stream-HasBootTimes n now ss inactive rs =
    after_init n rs (set_stream_status n ss inactive true now rs).0
      (quiet _ n ss inactive (init_service_maps n rs) _ _ (λ e. cc))
set_stream-HasBootTimes n now ss pending rs =
    after_init n rs (set_stream_status n ss pending true now rs).0
      (quiet _ n ss pending (init_service_maps n rs) _ _ (λ e. cc))
set_stream-HasBootTimes n now ss deleted rs =
    after_init n rs (set_stream_status n ss deleted true now rs).0
      (quiet _ n ss deleted (init_service_maps n rs) _ _ (λ e. cc))
set_stream-HasBootTimes n now ss initializing rs =
    after_init n rs (set_stream_status n ss initializing true now rs).0 (
      quiet _ n ss initializing (pinged n ss initializing now (init_service_maps n rs)) _ _
        (λ e. cc))
set_stream-HasBootTimes n now ss active rs = λ h.
    stream_booted-HasBootTimes _ n now ss (init_service_maps n rs) _ _
      (ActivatesNone-HasBootTimes rs (init_service_maps n rs) (init-ActivatesNone n rs) h)

booted-HasBootTimes :
    (n now : ℕ) (lock : Option ℕ) (rs : Services)
    → HasBootTimes rs
    → OnReturn (booted n lock true now rs)
unfolding booted
booted-HasBootTimes n now none rs h = now_booted-HasBootTimes n now rs h
booted-HasBootTimes n now (some l) rs h = elim (Bool-cases (is_locked (lookup l rs.boot_lock))) [
  | inl locked ↦
      rw locked
        (now_booted-HasBootTimes n now (record rs { boot_lock = insert l false rs.boot_lock }) h)
  | inr free ↦ rw free tt
]

try_locked-HasBootTimes :
    (o : Option Bool) (l : ℕ) (rs : Services) → HasBootTimes rs → HasBootTimes (try_locked o l rs).0
try_locked-HasBootTimes none l rs h = h
try_locked-HasBootTimes (some true) l rs h = h
try_locked-HasBootTimes (some false) l rs h = h

pub step-HasBootTimes :
    (c : Call) (now : ℕ) (rs : Services) → HasBootTimes rs → OnReturn (step c now rs)
unfolding step add_subscription remove_subscription get_enforced_service_status_check is_no_delay
    get_boot_lock try_lock set_include_incomplete initialising get_status
step-HasBootTimes (adds n f) now rs = after_init n rs (added n f rs) (
    both-ActivatesNone n pending inactive
      (record (init_service_maps n rs) { running_list = insert n f rs.running_list }) not_pending
      not_inactive)
step-HasBootTimes (removes n) now rs = removed-HasBootTimes n rs
step-HasBootTimes (cancels n e d) now rs = cancel-HasBootTimes n now e d rs
step-HasBootTimes (takes_enforced n) now rs =
    after_init n rs (init_service_maps n rs) (unchanged (init_service_maps n rs))
step-HasBootTimes (takes_no_delay n) now rs =
    after_init n rs (init_service_maps n rs) (unchanged (init_service_maps n rs))
step-HasBootTimes (takes_lock n) now rs =
    after_init n rs (init_service_maps n rs) (unchanged (init_service_maps n rs))
step-HasBootTimes (tries_lock l) now rs = try_locked-HasBootTimes (lookup l rs.boot_lock) l rs
step-HasBootTimes (sets_include n b) now rs =
    after_init n rs (init_service_maps n rs) (unchanged (init_service_maps n rs))
step-HasBootTimes (initialises n) now rs =
    after_init n rs (set_status n initializing (init_service_maps n rs))
      (status-ActivatesNone n initializing (init_service_maps n rs) (λ e. cc))
step-HasBootTimes (boots n lock) now rs = booted-HasBootTimes n now lock rs
step-HasBootTimes (sets_stream n ss s) now rs = set_stream-HasBootTimes n now ss s rs
step-HasBootTimes (reads n) now rs =
    after_init n rs (init_service_maps n rs) (unchanged (init_service_maps n rs))
