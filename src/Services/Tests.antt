-- ===== src/Services/Tests.antt =====
-- Small runs of the services (pkg/commons/services.go).
use torq.Prelude.{ℕ, ◌≡◌, refl, ◌≢◌, ◌↔◌, false, none, some, List, [], ◌∷◌, Memᴰ, All, nat_eq}
use torq.Prelude.Map.{lookup, insert, values}
use torq.Runtime.{Outcome, returns, panics, blocks}
use torq.Constants.{
  lnd_service, Status, inactive, active, pending, transaction_stream, invoice_stream,
  payment_stream,
}
use torq.Services.Types.{stream_eq, Services, Effect, send, call, same_stream}
use torq.Services.Operations.{
  with_entry, status_of, send_service_event, all_streams, add_subscription, get_boot_lock, try_lock,
  booted, set_stream_status,
}
use torq.Services.Reads.{
  merge_statuses, streams_of, get_status, get_active_node_ids, get_stream_status,
  get_stream_boot_time, get_boot_time,
}
use torq.Services.Calls.{Call, adds, takes_lock, tries_lock, boots, sets_stream, step, run}
use torq.Services.Follow.{follow}
use torq.Services.Replay.{run-follow}
use torq.Services.BootTimes.{empty, run-boot_times}
use torq.Services.Merge.{IsActiveOr}
use torq.Services.Status.{get_status-merged, get_active_node_ids-get_status}

-- A service is subscribed, booted under its lock, and one of its streams becomes active.
abbrev calls : List (Call × ℕ)
calls =
    (takes_lock 1, 10)
    ∷ (tries_lock 1, 11)
    ∷ (adds 1 77, 12)
    ∷ (boots 1 (some 1), 13)
    ∷ (sets_stream 1 invoice_stream active, 14)
    ∷ []

abbrev state_of : Outcome (Services × List Effect) → Services
state_of (returns r) = r.0
state_of panics = empty lnd_service
state_of blocks = empty lnd_service

abbrev sent_of : Outcome (Services × List Effect) → List Effect
sent_of (returns r) = r.1
sent_of panics = []
sent_of blocks = []

abbrev final : Services
final = state_of (run calls (empty lnd_service))

abbrev sent : List Effect
sent = sent_of (run calls (empty lnd_service))

run_returns : run calls (empty lnd_service) ≡ returns (final, sent)
unfolding run step get_boot_lock try_lock add_subscription booted set_stream_status lookup insert
    with_entry all_streams send_service_event same_stream
run_returns = refl

-- The statuses that a listener sees: Pending and Active of the service, then the stream.
abbrev statuses : List Effect → List Status
statuses [] = []
statuses (send e ∷ l) = e.status ∷ statuses l
statuses (call f ∷ l) = statuses l

sent_statuses : statuses sent ≡ pending ∷ active ∷ active ∷ []
unfolding run step get_boot_lock try_lock add_subscription booted set_stream_status lookup insert
    with_entry all_streams send_service_event same_stream
sent_statuses = refl

-- One stream is active and the others are pending.
still_pending : (get_status 1 final).1 ≡ pending
unfolding run step get_boot_lock try_lock add_subscription booted set_stream_status lookup insert
    with_entry all_streams send_service_event same_stream get_status merge_statuses
still_pending = refl

-- A boot that unlocks a lock that is not locked is fatal.
unlocked_boot : step (boots 1 (some 1)) 5 (empty lnd_service) ≡ panics
unfolding step booted lookup
unlocked_boot = refl

run-follow_example : follow 1 sent (status_of 1 (empty lnd_service)) ≡ some (status_of 1 final)
run-follow_example = run-follow calls (empty lnd_service) final sent 1 run_returns

run-boot_times_example :
    (((get_stream_boot_time 1 invoice_stream final).1 ≢ none)
      ↔ ((get_stream_status 1 invoice_stream final).1 ≡ active))
    × (((get_boot_time 1 final).1 ≢ none) ↔ (status_of 1 final ≡ active))
run-boot_times_example = run-boot_times lnd_service calls final sent 1 invoice_stream run_returns

-- An LND service that is active, with two streams.
abbrev sample : Services
sample = record (empty lnd_service) {
  service_status = (1, active) ∷ (2, pending) ∷ [];
  running_list = (1, 77) ∷ [];
  boot_lock = (1, false) ∷ [];
  stream_status = (1, (transaction_stream, active) ∷ (payment_stream, inactive) ∷ []) ∷ [];
}

get_status-merged_example :
    (All (λ t. t ≡ active) (values (streams_of 1 sample)) → (get_status 1 sample).1 ≡ active)
    × ((s : Status)
        → Memᴰ s (values (streams_of 1 sample))
        → s ≢ active
        → All (IsActiveOr s) (values (streams_of 1 sample))
        → (get_status 1 sample).1 ≡ s)
    × ((s t : Status)
        → Memᴰ s (values (streams_of 1 sample))
        → Memᴰ t (values (streams_of 1 sample))
        → s ≢ active
        → t ≢ active
        → s ≢ t
        → (get_status 1 sample).1 ≡ pending)
unfolding lookup
get_status-merged_example = get_status-merged sample 1 refl refl

get_active_node_ids-get_status_example :
    (Memᴰ 1 (get_active_node_ids sample) → (get_status 1 sample).1 ≡ active)
    × ((get_status 1 sample).1 ≡ active → Memᴰ 1 (get_active_node_ids sample))
unfolding lookup
get_active_node_ids-get_status_example = get_active_node_ids-get_status sample 1 (refl, (refl, tt))
