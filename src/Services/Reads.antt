-- ===== src/Services/Reads.antt =====
-- The reads of `Services` (pkg/commons/services.go). Each makes the maps of its node first, and
-- gives the state that this leaves with its answer.
use torq.Prelude.{ℕ, if◌then◌else◌, Bool, true, false, Option, none, some, List, [], ◌∷◌, nat_eq}
use torq.Prelude.Map.{Map, lookup, keys, values}
use torq.Constants.{
  is_lnd_service, Status, inactive, active, pending, status_eq, is_active, SubscriptionStream,
  subscription_streams, is_channel_balance_cache,
}
use torq.Services.Types.{stream_eq, Services}
use torq.Services.Operations.{init_service_maps, streams_or_empty, stream_status_of, flag_or_false}

-- The loops over stream statuses. `acc` is `streamStatus`: the status of the streams so far that
-- are not active. A second status ends the loop with Pending.
abbrev first_or : Option Status → Status → Status
first_or none s = s
first_or (some f) s = f

abbrev merged : Option Status → Status
merged none = active
merged (some s) = s

unfoldable pub merge_statuses : Option Status → List Status → Status
merge_statuses acc [] = merged acc
merge_statuses acc (s ∷ l) =
    let skip = merge_statuses acc l in
    let next = merge_statuses (some (first_or acc s)) l in
    if is_active s then skip else if status_eq (first_or acc s) s then next else pending

abbrev pub streams_of : ℕ → Services → Map SubscriptionStream Status
streams_of n rs = streams_or_empty (lookup n rs.stream_status)

-- What a service that is there and active answers.
abbrev pub active_status : ℕ → Services → Status
active_status n rs =
    if is_lnd_service rs.service_type
    then merge_statuses none (values (streams_of n rs))
    else active

-- The start of four reads: a service that is not there, and one that is not active.
abbrev pub status_guard : Option Status → Status → Status
status_guard none s = inactive
status_guard (some t) s = if is_active t then s else t

unfoldable pub get_status : ℕ → Services → Services × Status
get_status n rs =
    let rs1 = init_service_maps n rs in
    (rs1, status_guard (lookup n rs1.service_status) (active_status n rs1))

pub get_node_ids : Services → List ℕ
get_node_ids rs = keys rs.service_status

unfoldable pub all_active : List Status → Bool
all_active [] = true
all_active (s ∷ l) = let rest = all_active l in if is_active s then rest else false

abbrev pub is_listed : ℕ → Status → Services → Bool
is_listed n s rs =
    if is_active s
    then (if is_lnd_service rs.service_type then all_active (values (streams_of n rs)) else true)
    else false

unfoldable pub active_ids : Services → Map ℕ Status → List ℕ
active_ids rs [] = []
active_ids rs ((n, s) ∷ m) =
    let rest = active_ids rs m in if is_listed n s rs then n ∷ rest else rest

abbrev pub get_active_node_ids : Services → List ℕ
get_active_node_ids rs = active_ids rs rs.service_status

unfoldable pub get_stream_status : ℕ → SubscriptionStream → Services → Services × Status
get_stream_status n ss rs =
    let rs1 = init_service_maps n rs in
    (rs1, status_guard (lookup n rs1.service_status) (stream_status_of n ss rs1))

abbrev pub time_if : Bool → Option ℕ → Option ℕ
time_if true t = t
time_if false t = none

-- `exists && status == Active`
abbrev pub exists_active : Option Status → Bool
exists_active none = false
exists_active (some s) = is_active s

unfoldable pub get_stream_boot_time : ℕ → SubscriptionStream → Services → Services × Option ℕ
get_stream_boot_time n ss rs =
    let rs1 = init_service_maps n rs in
    (
      rs1,
      time_if (exists_active (lookup n rs1.service_status)) (
          time_if (exists_active (lookup ss (streams_of n rs1)))
            (lookup ss (streams_or_empty (lookup n rs1.stream_boot_time)))),
    )

unfoldable pub get_stream_initialization_ping_time :
    ℕ → SubscriptionStream → Services → Services × Option ℕ
get_stream_initialization_ping_time n ss rs =
    let rs1 = init_service_maps n rs in
    (rs1, lookup ss (streams_or_empty (lookup n rs1.stream_initialization_ping_time)))

-- The statuses of the streams that the channel balance cache rests on, in the order of the list.
unfoldable pub balance_statuses : ℕ → Services → List SubscriptionStream → List Status
balance_statuses n rs [] = []
balance_statuses n rs (ss ∷ l) =
    let rest = balance_statuses n rs l in
    if is_channel_balance_cache ss then stream_status_of n ss rs ∷ rest else rest

unfoldable pub get_channel_balance_cache_stream_status : ℕ → Services → Services × Status
get_channel_balance_cache_stream_status n rs =
    let rs1 = init_service_maps n rs in
    (
      rs1,
      status_guard (lookup n rs1.service_status)
          (merge_statuses none (balance_statuses n rs1 subscription_streams)),
    )

unfoldable pub get_boot_time : ℕ → Services → Services × Option ℕ
get_boot_time n rs =
    let rs1 = init_service_maps n rs in
    (rs1, time_if (exists_active (lookup n rs1.service_status)) (lookup n rs1.boot_time))

unfoldable pub get_include_incomplete : ℕ → Services → Services × Bool
get_include_incomplete n rs =
    let rs1 = init_service_maps n rs in (rs1, flag_or_false (lookup n rs1.include_incomplete))
