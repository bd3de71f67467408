-- ===== src/BalanceCache/Sync.antt =====
-- `synchronizeDataFromLnd` and the loop of `ChannelBalanceCacheMaintenance`
-- (pkg/lnd/channelBalanceCache.go), with `SendStreamEvent` (pkg/lnd/helper.go).
use torq.Prelude.{ℕ, Bool, true, false, ◌||◌, ◌&&◌, not, List, [], ◌∷◌, ◌++◌, if◌then◌else◌}
use torq.Constants.{
  Status, inactive, active, pending, initializing, is_active, status_eq, SubscriptionStream,
  channel_balance_cache_stream,
}
use torq.Services.Types.{Services, Effect}
use torq.Services.Operations.{set_stream_status}
use torq.Services.Reads.{get_channel_balance_cache_stream_status}
use torq.ChannelState.Types.{Message}
use torq.BalanceCache.Initial.{Answers, initialize_channel_balance_from_lnd}

abbrev pub is_initializing : Status → Bool
is_initializing initializing = true
is_initializing _ = false

-- The registry, with the events that it sent.
unfoldable pub send_stream_event :
    (listening : Bool)
    → ℕ
    → SubscriptionStream
    → (status previous : Status) → ℕ
    → Services
    → Services × List Effect
send_stream_event listening n ss status previous now rs =
    if listening && (is_initializing status || not (status_eq previous status))
    then set_stream_status n ss status listening now rs
    else (rs, [])

-- What the loop keeps between two rounds, and the registry.
pub record Upkeep : Type 0 where
  pub boot_strapping : Bool
  pub service_status : Status
  pub services : Services

-- One round: its time, what the other parts answer, and what other goroutines do to the registry
-- before it and while LND is asked.
pub record Round : Type 0 where
  pub now : ℕ
  pub answers : Answers
  pub before : Services → Services
  pub meanwhile : Services → Services

module _ (listening : Bool) (n : ℕ) where
  -- `serviceStatus = SendStreamEvent(...)`
  abbrev pub announce : Status → ℕ → Upkeep → Upkeep × List Effect
  announce status now u =
      let r =
        send_stream_event listening n channel_balance_cache_stream status u.service_status now
          u.services in
      (record u { service_status = status; services = r.0 }, r.1)

  -- The start of a round, up to the first announcement.
  unfoldable pub begin_round : ℕ → Upkeep → Upkeep × List Effect
  begin_round now u =
      let r = get_channel_balance_cache_stream_status n u.services in
      let boot = u.boot_strapping || not (is_active r.1) in
      announce (if boot then initializing else active) now
        (record u { boot_strapping = boot; services = r.0 })

  -- The end of a round, where the initialisation returned an error or not.
  abbrev pub finish_round : Bool → ℕ → Upkeep → Upkeep × List Effect
  finish_round true now u = announce pending now u
  finish_round false now u =
      let r = get_channel_balance_cache_stream_status n u.services in
      let u' = record u { services = r.0 } in
      if is_active r.1 then announce active now (record u' { boot_strapping = false }) else (u', [])

module _ (wrapf : Bool → Bool) (listening : Bool) (n : ℕ) where
  unfoldable pub synchronize_data_from_lnd : Round → Upkeep → Upkeep × List Effect × List Message
  synchronize_data_from_lnd r u =
      let begun = begin_round listening n r.now (record u { services = r.before u.services }) in
      let sent = initialize_channel_balance_from_lnd wrapf n r.answers in
      let ended =
        finish_round listening n sent.1 r.now
          (record (begun.0) { services = r.meanwhile (begun.0).services }) in
      (ended.0, begun.1 ++ ended.1, sent.0)

  -- The rounds of the ticker, with the messages that they send to the channel state cache.
  unfoldable pub maintain : List Round → Upkeep → Upkeep × List Message
  maintain [] u = (u, [])
  maintain (r ∷ l) u =
      let once = synchronize_data_from_lnd r u in
      let rest = maintain l once.0 in (rest.0, once.2 ++ rest.1)

-- The state before the first round.
abbrev pub start : Services → Upkeep
start rs = record { boot_strapping = true; service_status = inactive; services = rs }
