-- ===== src/Services/Stopping.antt =====
-- Stopping a service (pkg/commons/services.go, `Cancel` and the one-time reads of what it leaves).
use torq.Prelude.{ℕ, ◌≡◌, refl, Bool, true, false, Option, none, some, [], ◌∷◌, arith, ap, nat_eq}
use torq.Prelude.Map.{lookup, insert, delete, lookup-insert, lookup-delete}
use torq.Constants.{Status, inactive, active, pending}
use torq.Services.Types.{stream_eq, Services, call}
use torq.Services.Operations.{
  init_service_maps, status_of, status_event, is_locked, stopped, cancel, enforced_or_nil,
  flag_or_false, get_enforced_service_status_check, is_no_delay,
}
use torq.Services.Reads.{get_status}

-- `Cancel` answers Inactive where the service does not run, and Pending while its boot lock is
-- held, and then does nothing but make the maps of the node. Else it answers Active, calls the
-- cancel function that was given for the node, once, and then sends the event; the service does not
-- run any more and is Inactive.
pub cancel-answers :
    (n now : ℕ) (enforced : Option Status) (d listening : Bool) (rs : Services)
    → (lookup n rs.running_list ≡ none
        → cancel n enforced d listening now rs ≡ (init_service_maps n rs, [], inactive))
      × ((f : ℕ)
          → lookup n rs.running_list ≡ some f
          → is_locked (lookup n rs.boot_lock) ≡ true
          → cancel n enforced d listening now rs ≡ (init_service_maps n rs, [], pending))
      × ((f : ℕ)
          → lookup n rs.running_list ≡ some f
          → is_locked (lookup n rs.boot_lock) ≡ false
          → (rs' : Services) × (cancel n enforced d listening now rs
              ≡ (rs', call f ∷ status_event listening n now (status_of n rs) rs', active))
            × (lookup n rs'.running_list ≡ none)
            × ((get_status n rs').1 ≡ inactive))
unfolding cancel get_status
cancel-answers n now enforced d listening rs =
    (λ missing. rw missing refl, λ f found locked. rw (found, locked) refl, ended)
  where
    ended :
        (f : ℕ)
        → lookup n rs.running_list ≡ some f
        → is_locked (lookup n rs.boot_lock) ≡ false
        → (rs' : Services) × (cancel n enforced d listening now rs
            ≡ (rs', call f ∷ status_event listening n now (status_of n rs) rs', active))
          × (lookup n rs'.running_list ≡ none)
          × ((get_status n rs').1 ≡ inactive)
    ended f found free =
        let gone : lookup n (delete n rs.running_list) ≡ none =
          ground (arith, lookup-delete n n rs.running_list) in
        let stays : lookup n (insert n inactive rs.service_status) ≡ some inactive =
          ground (arith, lookup-insert n n inactive rs.service_status) in
        (
          stopped n enforced d now (init_service_maps n rs),
          rw (found, free) refl,
          gone,
          rw stays refl,
        )

-- What a `Cancel` that stops a service leaves for its restart is read once: the first
-- `GetEnforcedServiceStatusCheck` gives the status that `Cancel` was given and the next gives nil,
-- and the first `IsNoDelay` gives the flag that `Cancel` was given and the next gives false.
pub cancel-read_once :
    (n now f : ℕ) (enforced : Option Status) (d listening : Bool) (rs : Services)
    → lookup n rs.running_list ≡ some f
    → is_locked (lookup n rs.boot_lock) ≡ false
    → (let rs1 = (cancel n enforced d listening now rs).0 in
        let check = get_enforced_service_status_check n rs1 in
        let delay = is_no_delay n check.0 in
        (check.1 ≡ enforced)
        × (delay.1 ≡ d)
        × ((get_enforced_service_status_check n delay.0).1 ≡ none)
        × ((is_no_delay n delay.0).1 ≡ false))
unfolding cancel get_enforced_service_status_check is_no_delay
cancel-read_once n now f enforced d listening rs found free =
    let es = insert n enforced rs.enforced_service_status in
    let ds = insert n d rs.no_delay in
    let e : lookup n es ≡ some enforced =
      ground (arith, lookup-insert n n enforced rs.enforced_service_status) in
    let g : lookup n ds ≡ some d = ground (arith, lookup-insert n n d rs.no_delay) in
    let e' : lookup n (delete n es) ≡ none = ground (arith, lookup-delete n n es) in
    let g' : lookup n (delete n ds) ≡ none = ground (arith, lookup-delete n n ds) in
    rw (found, free)
      (ap enforced_or_nil e, ap flag_or_false g, ap enforced_or_nil e', ap flag_or_false g')
