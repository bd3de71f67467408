-- ===== src/Services/Replay.antt =====
-- The service events against the statuses (pkg/commons/services.go, `sendServiceEvent`).
use torq.Prelude.{
  ℕ, ◌≡◌, refl, inl, inr, Bool, true, false, Bool-cases, Option, none, some, List, [], ◌∷◌, ◌++◌,
  sym, ap, subst, ◌∙◌, nat_eq,
}
use torq.Prelude.Map.{lookup, insert}
use torq.Runtime.{Outcome, returns, panics, blocks, ◌>>=◌}
use torq.Constants.{
  Status, inactive, active, pending, deleted, initializing, status_eq, SubscriptionStream,
}
use torq.Services.Types.{stream_eq, Services, Effect}
use torq.Services.Operations.{
  init_service_maps, added, forget, removed, cancel_running, pinged, restreamed, stream_booted,
  stream_status_of, try_locked, status_of, status_or_zero, set_status, add_subscription,
  remove_subscription, cancel, get_enforced_service_status_check, is_no_delay, get_boot_lock,
  try_lock, set_include_incomplete, initialising, now_booted, booted, set_stream_status, stopped,
  is_locked,
}
use torq.Services.Calls.{
  Call, adds, removes, cancels, takes_enforced, takes_no_delay, takes_lock, tries_lock,
  sets_include, initialises, boots, sets_stream, reads, step, run,
}
use torq.Services.Reads.{get_status}
use torq.Services.Follow.{
  follow, follow-append, follow-status_event, follow-stream, KeepsOthers, set_lnd-service_status,
  set_status-KeepsOthers, set_both-KeepsOthers,
}

-- The events of an outcome are the changes of the statuses.
abbrev IsFollowed : Services → Outcome (Services × List Effect) → Type 0
IsFollowed rs (returns r) = (k : ℕ) → follow k r.1 (status_of k rs) ≡ some (status_of k r.0)
IsFollowed rs panics = Unit
IsFollowed rs blocks = Unit

removed-KeepsOthers : (n : ℕ) (rs : Services) → KeepsOthers n rs (removed n rs)
removed-KeepsOthers n rs k ne =
    ap (λ m. status_or_zero (lookup k m))
      (set_lnd-service_status n inactive
        (forget (lookup n rs.running_list) n (init_service_maps n rs)))
    ∙ forgotten (lookup n rs.running_list)
  where
    forgotten : (o : Option ℕ) → status_of k (forget o n (init_service_maps n rs)) ≡ status_of k rs
    forgotten none = refl
    forgotten (some f) = set_status-KeepsOthers n inactive rs.service_status k ne

cancel-IsFollowed :
    (n now : ℕ) (e : Option Status) (d : Bool) (rs : Services)
    → IsFollowed rs (step (cancels n e d) now rs)
unfolding step cancel follow
cancel-IsFollowed n now e d rs k = running (lookup n rs.running_list)
  where
    rs1 : Services
    rs1 = init_service_maps n rs

    result : Option ℕ → Services × List Effect × Status
    result o = cancel_running o n e d true now rs1

    running :
        (o : Option ℕ) → follow k (result o).1 (status_of k rs) ≡ some (status_of k (result o).0)
    running none = refl
    running (some f) = elim (Bool-cases (is_locked (lookup n rs.boot_lock))) [
      | inl locked ↦ rw locked refl
      | inr free ↦ rw free (
          follow-status_event n now rs (stopped n e d now rs1)
            (set_status-KeepsOthers n inactive rs.service_status) k)
    ]

pinged-service_status :
    (n now : ℕ) (ss : SubscriptionStream) (s : Status) (rs : Services)
    → (pinged n ss s now rs).service_status ≡ rs.service_status
pinged-service_status n now ss inactive rs = refl
pinged-service_status n now ss active rs = refl
pinged-service_status n now ss pending rs = refl
pinged-service_status n now ss deleted rs = refl
pinged-service_status n now ss initializing rs = refl

stream_booted-service_status :
    (n now : ℕ) (ss : SubscriptionStream) (s : Status) (rs : Services)
    → (stream_booted n ss s now rs).service_status ≡ rs.service_status
stream_booted-service_status n now ss inactive rs = refl
stream_booted-service_status n now ss active rs = refl
stream_booted-service_status n now ss pending rs = refl
stream_booted-service_status n now ss deleted rs = refl
stream_booted-service_status n now ss initializing rs = refl

set_stream-IsFollowed :
    (n now : ℕ) (ss : SubscriptionStream) (s : Status) (rs : Services)
    → IsFollowed rs (returns (set_stream_status n ss s true now rs))
unfolding set_stream_status follow
set_stream-IsFollowed n now ss s rs k =
    let rs1 = pinged n ss s now (init_service_maps n rs) in
    let rs2 = restreamed n ss s rs1 in
    let p : status_of k rs1 ≡ status_of k rs =
      ap (λ m. status_or_zero (lookup k m))
        (pinged-service_status n now ss s (init_service_maps n rs)) in
    let q : status_of k (stream_booted n ss s now rs2) ≡ status_of k rs =
      ap (λ m. status_or_zero (lookup k m)) (stream_booted-service_status n now ss s rs2) ∙ p in
    elim (Bool-cases (status_eq (stream_status_of n ss rs1) s)) [
      | inl same ↦ rw same (ap some (sym p))
      | inr differ ↦ rw differ (
          follow-stream k n now (stream_status_of n ss rs1) (stream_status_of n ss rs2)
            (status_of k rs) rs1.service_type ss
          ∙ ap some (sym q))
    ]

boots-IsFollowed :
    (n now : ℕ) (lock : Option ℕ) (rs : Services) → IsFollowed rs (booted n lock true now rs)
unfolding booted
boots-IsFollowed n now none rs =
    follow-status_event n now rs (now_booted n now rs) (set_both-KeepsOthers n active pending _)
boots-IsFollowed n now (some l) rs = elim (Bool-cases (is_locked (lookup l rs.boot_lock))) [
  | inl locked ↦
      let rs' : Services = record rs { boot_lock = insert l false rs.boot_lock } in
      rw locked (
        follow-status_event n now rs (now_booted n now rs')
          (set_both-KeepsOthers n active pending _))
  | inr free ↦ rw free tt
]

tries-IsFollowed : (l now : ℕ) (rs : Services) → IsFollowed rs (step (tries_lock l) now rs)
unfolding step try_lock follow
tries-IsFollowed l now rs k = tried (lookup l rs.boot_lock)
  where
    tried : (o : Option Bool) → some (status_of k rs) ≡ some (status_of k (try_locked o l rs).0)
    tried none = refl
    tried (some true) = refl
    tried (some false) = refl

step-IsFollowed : (c : Call) (now : ℕ) (rs : Services) → IsFollowed rs (step c now rs)
unfolding step add_subscription remove_subscription get_enforced_service_status_check is_no_delay
    get_boot_lock set_include_incomplete initialising follow get_status
step-IsFollowed (adds n f) now rs =
    follow-status_event n now rs (added n f rs) (set_both-KeepsOthers n pending inactive _)
step-IsFollowed (removes n) now rs =
    follow-status_event n now rs (removed n rs) (removed-KeepsOthers n rs)
step-IsFollowed (cancels n e d) now rs = cancel-IsFollowed n now e d rs
step-IsFollowed (takes_enforced n) now rs = λ k. refl
step-IsFollowed (takes_no_delay n) now rs = λ k. refl
step-IsFollowed (takes_lock n) now rs = λ k. refl
step-IsFollowed (tries_lock l) now rs = tries-IsFollowed l now rs
step-IsFollowed (sets_include n b) now rs = λ k. refl
step-IsFollowed (initialises n) now rs =
    follow-status_event n now rs (set_status n initializing (init_service_maps n rs))
      (set_status-KeepsOthers n initializing rs.service_status)
step-IsFollowed (boots n lock) now rs = boots-IsFollowed n now lock rs
step-IsFollowed (sets_stream n ss s) now rs = set_stream-IsFollowed n now ss s rs
step-IsFollowed (reads n) now rs = λ k. refl

then-IsFollowed :
    (rs : Services) (r : Services × List Effect) (o : Outcome (Services × List Effect))
    → IsFollowed rs (returns r)
    → IsFollowed r.0 o
    → IsFollowed rs (o >>= λ q. returns (q.0, r.1 ++ q.1))
then-IsFollowed rs r (returns q) h g = λ k. follow-append k r.1 q.1 _ _ _ (h k) (g k)
then-IsFollowed rs r panics h g = tt
then-IsFollowed rs r blocks h g = tt

bind-IsFollowed :
    (rs : Services) (o : Outcome (Services × List Effect)) (l : List (Call × ℕ))
    → IsFollowed rs o
    → ((r : Services × List Effect) → IsFollowed r.0 (run l r.0))
    → IsFollowed rs (o >>= λ r. run l r.0 >>= λ q. returns (q.0, r.1 ++ q.1))
bind-IsFollowed rs (returns r) l h g = then-IsFollowed rs r (run l r.0) h (g r)
bind-IsFollowed rs panics l h g = tt
bind-IsFollowed rs blocks l h g = tt

run-IsFollowed : (l : List (Call × ℕ)) (rs : Services) → IsFollowed rs (run l rs)
unfolding run follow
run-IsFollowed [] rs = λ k. refl
run-IsFollowed ((c, now) ∷ l) rs =
    bind-IsFollowed rs (step c now rs) l (step-IsFollowed c now rs) λ r. run-IsFollowed l r.0

-- A listener that starts with a node's service status and follows the events of a run is never
-- surprised and ends with the node's service status: the events for the node form a chain, each
-- starts from the status that the one before left and changes it, and no change is left out.
pub run-follow :
    (l : List (Call × ℕ)) (rs rs' : Services) (sent : List Effect) (n : ℕ)
    → run l rs ≡ returns (rs', sent)
    → follow n sent (status_of n rs) ≡ some (status_of n rs')
run-follow l rs rs' sent n h = subst (IsFollowed rs) h (run-IsFollowed l rs) n
