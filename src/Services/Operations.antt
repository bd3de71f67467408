-- ===== src/Services/Operations.antt =====
-- The operations of `Services` that change its state (pkg/commons/services.go). Each holds the
-- mutex from its first line to its last, so it is one step. `now` is `time.Now().UTC()`, and
-- `listening` says that the event channel is not nil.
use torq.Prelude.{ℕ, if◌then◌else◌, Bool, true, false, Option, none, some, List, [], ◌∷◌, nat_eq}
use torq.Prelude.Map.{Map, lookup, insert, delete}
use torq.Runtime.{Outcome, returns, panics, ◌>>=◌}
use torq.Constants.{
  ServiceType, is_lnd_service, Status, inactive, active, pending, initializing, status_eq,
  SubscriptionStream, subscription_streams,
}
use torq.Services.Types.{stream_eq, Services, Effect, send, call}

-- `make(map[..]..)` where the node has none.
abbrev with_entry_if : {A : Type 0} → Option (List A) → ℕ → Map ℕ (List A) → Map ℕ (List A)
with_entry_if none n m = insert n [] m
with_entry_if (some v) n m = m

unfoldable pub with_entry : {A : Type 0} → ℕ → Map ℕ (List A) → Map ℕ (List A)
with_entry n m = with_entry_if (lookup n m) n m

abbrev pub init_service_maps : ℕ → Services → Services
init_service_maps n rs = record rs {
  stream_status = with_entry n rs.stream_status;
  stream_boot_time = with_entry n rs.stream_boot_time;
  stream_initialization_ping_time = with_entry n rs.stream_initialization_ping_time;
}

-- A status that is read from a map: the zero status where there is none.
abbrev pub status_or_zero : Option Status → Status
status_or_zero none = inactive
status_or_zero (some s) = s

abbrev pub streams_or_empty : {A : Type 0} → Option (List A) → List A
streams_or_empty none = []
streams_or_empty (some m) = m

abbrev pub status_of : ℕ → Services → Status
status_of n rs = status_or_zero (lookup n rs.service_status)

abbrev pub stream_status_of : ℕ → SubscriptionStream → Services → Status
stream_status_of n ss rs = status_or_zero (lookup ss (streams_or_empty (lookup n rs.stream_status)))

unfoldable pub send_service_event :
    (listening : Bool) (node_id now : ℕ) (previous_status status : Status) (t : ServiceType)
    → Option SubscriptionStream
    → List Effect
send_service_event listening n now previous status t ss =
    if status_eq previous status
    then []
    else if listening
    then send (record {
      event_time = now;
      node_id = n;
      type = t;
      subscription_stream = ss;
      status = status;
      previous_status = previous;
    })
      ∷ []
    else []

unfoldable pub all_streams : Status → List SubscriptionStream → Map SubscriptionStream Status
all_streams s [] = []
all_streams s (ss ∷ l) = insert ss s (all_streams s l)

abbrev pub set_stream_statuses : ℕ → Status → Services → Services
set_stream_statuses n s rs = record rs {
  stream_status = insert n (all_streams s subscription_streams) rs.stream_status;
}

abbrev pub set_lnd_stream_statuses : ℕ → Status → Services → Services
set_lnd_stream_statuses n s rs =
    if is_lnd_service rs.service_type then set_stream_statuses n s rs else rs

-- The event for a change of the node's service status.
abbrev pub status_event : Bool → ℕ → ℕ → Status → Services → List Effect
status_event listening n now previous rs =
    send_service_event listening n now previous (status_of n rs) rs.service_type none

abbrev pub set_status : ℕ → Status → Services → Services
set_status n s rs = record rs { service_status = insert n s rs.service_status }

abbrev pub added : ℕ → ℕ → Services → Services
added n cancel_func rs = set_lnd_stream_statuses n inactive (
    set_status n pending
      (record (init_service_maps n rs) { running_list = insert n cancel_func rs.running_list }))

unfoldable pub add_subscription : ℕ → ℕ → Bool → ℕ → Services → Services × List Effect
add_subscription n cancel_func listening now rs =
    let rs' = added n cancel_func rs in (rs', status_event listening n now (status_of n rs) rs')

abbrev pub forget : Option ℕ → ℕ → Services → Services
forget none n rs = rs
forget (some f) n rs = set_status n inactive (record rs { running_list = delete n rs.running_list })

abbrev pub removed : ℕ → Services → Services
removed n rs =
    set_lnd_stream_statuses n inactive
      (forget (lookup n rs.running_list) n (init_service_maps n rs))

unfoldable pub remove_subscription : ℕ → Bool → ℕ → Services → Services × List Effect
remove_subscription n listening now rs =
    let rs' = removed n rs in (rs', status_event listening n now (status_of n rs) rs')

-- `exists && MutexLocked(rs.bootLock[nodeId])`
abbrev pub is_locked : Option Bool → Bool
is_locked none = false
is_locked (some locked) = locked

abbrev pub stopped : ℕ → Option Status → Bool → ℕ → Services → Services
stopped n enforced no_delay now rs = set_stream_statuses n inactive (
    set_status n inactive (record rs {
      no_delay = insert n no_delay rs.no_delay;
      enforced_service_status = insert n enforced rs.enforced_service_status;
      running_list = delete n rs.running_list;
      cancel_time = insert n now rs.cancel_time;
    }))

abbrev pub cancel_running :
    Option ℕ → ℕ → Option Status → Bool → Bool → ℕ → Services → Services × List Effect × Status
cancel_running none n enforced no_delay listening now rs = (rs, [], inactive)
cancel_running (some f) n enforced no_delay listening now rs =
    if is_locked (lookup n rs.boot_lock)
    then (rs, [], pending)
    else let rs' = stopped n enforced no_delay now rs in
      (rs', call f ∷ status_event listening n now (status_of n rs) rs', active)

unfoldable pub cancel :
    ℕ → Option Status → Bool → Bool → ℕ → Services → Services × List Effect × Status
cancel n enforced no_delay listening now rs =
    let rs1 = init_service_maps n rs in
    cancel_running (lookup n rs1.running_list) n enforced no_delay listening now rs1

abbrev pub enforced_or_nil : Option (Option Status) → Option Status
enforced_or_nil none = none
enforced_or_nil (some s) = s

-- `delete` of a key that is not there changes nothing.
unfoldable pub get_enforced_service_status_check : ℕ → Services → Services × Option Status
get_enforced_service_status_check n rs =
    let rs1 = init_service_maps n rs in
    (
      record rs1 { enforced_service_status = delete n rs1.enforced_service_status },
      enforced_or_nil (lookup n rs1.enforced_service_status),
    )

abbrev pub flag_or_false : Option Bool → Bool
flag_or_false none = false
flag_or_false (some b) = b

unfoldable pub is_no_delay : ℕ → Services → Services × Bool
is_no_delay n rs =
    let rs1 = init_service_maps n rs in
    (record rs1 { no_delay = delete n rs1.no_delay }, flag_or_false (lookup n rs1.no_delay))

abbrev lock_made : Option Bool → ℕ → Map ℕ Bool → Map ℕ Bool
lock_made none n m = insert n false m
lock_made (some b) n m = m

-- The pointer that it gives is the one to the lock of the node.
unfoldable pub get_boot_lock : ℕ → Services → Services × ℕ
get_boot_lock n rs =
    let rs1 = init_service_maps n rs in
    (record rs1 { boot_lock = lock_made (lookup n rs1.boot_lock) n rs1.boot_lock }, n)

-- `TryLock` of a holder of the pointer.
abbrev pub try_locked : Option Bool → ℕ → Services → Services × Bool
try_locked none l rs = (rs, false)
try_locked (some true) l rs = (rs, false)
try_locked (some false) l rs = (record rs { boot_lock = insert l true rs.boot_lock }, true)

unfoldable pub try_lock : ℕ → Services → Services × Bool
try_lock l rs = try_locked (lookup l rs.boot_lock) l rs

unfoldable pub set_include_incomplete : ℕ → Bool → Services → Services
set_include_incomplete n b rs =
    let rs1 = init_service_maps n rs in
    record rs1 { include_incomplete = insert n b rs1.include_incomplete }

unfoldable pub initialising : ℕ → Bool → ℕ → Services → Services × List Effect
initialising n listening now rs =
    let rs' = set_status n initializing (init_service_maps n rs) in
    (rs', status_event listening n now (status_of n rs) rs')

-- `bootLock.Unlock()`, which is fatal on a lock that is not locked.
abbrev pub unlock : Option ℕ → Services → Outcome Services
unlock none rs = returns rs
unlock (some l) rs =
    if is_locked (lookup l rs.boot_lock)
    then returns (record rs { boot_lock = insert l false rs.boot_lock })
    else panics

abbrev pub now_booted : ℕ → ℕ → Services → Services
now_booted n now rs = set_lnd_stream_statuses n pending (
    set_status n active (record (init_service_maps n rs) { boot_time = insert n now rs.boot_time }))

abbrev pub boot : ℕ → Bool → ℕ → Services → Services × List Effect
boot n listening now rs =
    let rs' = now_booted n now rs in (rs', status_event listening n now (status_of n rs) rs')

unfoldable pub booted : ℕ → Option ℕ → Bool → ℕ → Services → Outcome (Services × List Effect)
booted n lock listening now rs = unlock lock rs >>= λ rs'. returns (boot n listening now rs')

-- A write to the streams of a node.
abbrev pub set_stream :
    {A : Type 0}
    → ℕ
    → SubscriptionStream
    → A
    → Map ℕ (Map SubscriptionStream A)
    → Map ℕ (Map SubscriptionStream A)
set_stream n ss a m = insert n (insert ss a (streams_or_empty (lookup n m))) m

abbrev pub pinged : ℕ → SubscriptionStream → Status → ℕ → Services → Services
pinged n ss initializing now rs = record rs {
  stream_initialization_ping_time = set_stream n ss now rs.stream_initialization_ping_time;
}
pinged n ss _ now rs = rs

abbrev pub stream_booted : ℕ → SubscriptionStream → Status → ℕ → Services → Services
stream_booted n ss active now rs = record rs {
  stream_boot_time = set_stream n ss now rs.stream_boot_time;
}
stream_booted n ss _ now rs = rs

abbrev pub restreamed : ℕ → SubscriptionStream → Status → Services → Services
restreamed n ss status rs = record rs { stream_status = set_stream n ss status rs.stream_status }

unfoldable pub set_stream_status :
    ℕ → SubscriptionStream → Status → Bool → ℕ → Services → Services × List Effect
set_stream_status n ss status listening now rs =
    let rs1 = pinged n ss status now (init_service_maps n rs) in
    let rs2 = restreamed n ss status rs1 in
    let previous = stream_status_of n ss rs1 in
    if status_eq previous status then (rs1, []) else (
      stream_booted n ss status now rs2,
      send_service_event listening n now previous (stream_status_of n ss rs2) rs1.service_type
          (some ss),
    )
