-- ===== src/BalanceCache/Rounds.antt =====
-- What holds between the rounds of `ChannelBalanceCacheMaintenance`
-- (pkg/lnd/channelBalanceCache.go).
use torq.Prelude.{
  ℕ, ◌≡◌, refl, ap, ◌∙◌, ◌≢◌, ◌⊎◌, inl, inr, Bool, true, false, Bool-cases, ◌||◌, not, List, [],
  ◌∷◌, All, arith, nat_eq, if◌then◌else◌,
}
use torq.Prelude.Map.{Map, lookup, insert, lookup-insert}
use torq.Constants.{
  Status, inactive, active, pending, deleted, initializing, is_active, status_eq,
  channel_balance_cache_stream, SubscriptionStream,
}
use torq.Services.Types.{stream_eq, same_stream_iff, Services}
use torq.Services.Operations.{
  restreamed, stream_booted, stream_status_of, streams_or_empty, init_service_maps,
  set_stream_status, pinged, set_stream, status_or_zero,
}
use torq.Services.Reads.{get_channel_balance_cache_stream_status}
use torq.Services.Status.{streams-with_entry}
use torq.BalanceCache.Initial.{initialize_channel_balance_from_lnd}
use torq.BalanceCache.Sync.{
  is_initializing, send_stream_event, Upkeep, Round, announce, begin_round, finish_round,
  synchronize_data_from_lnd, maintain, start,
}

-- The registry's status of a stream of a node, after the maps of the node are made.
stream-init :
    (n : ℕ) (ss : SubscriptionStream) (rs : Services)
    → stream_status_of n ss (init_service_maps n rs) ≡ stream_status_of n ss rs
stream-init n ss rs =
    ap (λ m. status_or_zero (lookup ss m)) (streams-with_entry n n rs.stream_status)

stream-set_stream :
    (n : ℕ) (ss : SubscriptionStream) (st : Status) (rs : Services)
    → status_or_zero (lookup ss (streams_or_empty (lookup n (set_stream n ss st rs.stream_status))))
      ≡ st
stream-set_stream n ss st rs =
    let row = insert ss st (streams_or_empty (lookup n rs.stream_status)) in
    ground (
      arith,
      lookup-insert n n row rs.stream_status,
      lookup-insert ss ss st (streams_or_empty (lookup n rs.stream_status)),
      same_stream_iff ss ss,
    )

-- The times that are noted beside it do not matter.
stream-pinged :
    (n : ℕ) (ss : SubscriptionStream) (st : Status) (now : ℕ) (rs : Services)
    → (pinged n ss st now rs).stream_status ≡ rs.stream_status
stream-pinged n ss initializing now rs = refl
stream-pinged n ss inactive now rs = refl
stream-pinged n ss active now rs = refl
stream-pinged n ss pending now rs = refl
stream-pinged n ss deleted now rs = refl

stream-stream_booted :
    (n : ℕ) (ss : SubscriptionStream) (st : Status) (now : ℕ) (rs : Services)
    → (stream_booted n ss st now rs).stream_status ≡ rs.stream_status
stream-stream_booted n ss active now rs = refl
stream-stream_booted n ss inactive now rs = refl
stream-stream_booted n ss pending now rs = refl
stream-stream_booted n ss deleted now rs = refl
stream-stream_booted n ss initializing now rs = refl

status_eq_sound : (a b : Status) → status_eq a b ≡ true → a ≡ b
status_eq_sound a b h = ground arith

-- A status that was set is the registry's.
pub stream-set_stream_status :
    (n : ℕ) (ss : SubscriptionStream) (st : Status) (listening : Bool) (now : ℕ) (rs : Services)
    → stream_status_of n ss (set_stream_status n ss st listening now rs).0 ≡ st
unfolding set_stream_status
stream-set_stream_status n ss st listening now rs =
    let rs1 : Services = pinged n ss st now (init_service_maps n rs) in
    let read = λ (m : Map ℕ (Map SubscriptionStream Status)).
      status_or_zero (lookup ss (streams_or_empty (lookup n m))) in
    elim (Bool-cases (status_eq (stream_status_of n ss rs1) st)) [
      | inl same ↦ rw same (status_eq_sound (stream_status_of n ss rs1) st same)
      | inr other ↦ rw other (
          ap read (stream-stream_booted n ss st now (restreamed n ss st rs1))
          ∙ stream-set_stream n ss st rs1)
    ]

-- So is a status that was announced, where the one before was.
stream-send_stream_event :
    (n : ℕ) (ss : SubscriptionStream) (st previous : Status) (now : ℕ) (rs : Services)
    → stream_status_of n ss rs ≡ previous
    → stream_status_of n ss (send_stream_event true n ss st previous now rs).0 ≡ st
unfolding send_stream_event
stream-send_stream_event n ss st previous now rs h =
    elim (Bool-cases (is_initializing st || not (status_eq previous st))) [
      | inl sent ↦ rw sent (stream-set_stream_status n ss st true now rs)
      | inr kept ↦
          let same : status_eq previous st ≡ true = ground arith in
          rw kept (h ∙ status_eq_sound previous st same)
    ]

-- Other goroutines leave the status of this stream to the loop.
abbrev pub LeavesStream : ℕ → (Services → Services) → Type 0
LeavesStream n f =
    (rs : Services)
    → stream_status_of n channel_balance_cache_stream (f rs)
      ≡ stream_status_of n channel_balance_cache_stream rs

abbrev pub IsUndisturbed : ℕ → Round → Type 0
IsUndisturbed n r = LeavesStream n r.before × LeavesStream n r.meanwhile

-- The registry has the status that the loop keeps, the status is Active where the loop is not
-- bootstrapping, or Pending where the last round failed, and it is not Active where it is.
pub record IsInStep (n : ℕ) (u : Upkeep) : Type 0 where
  pub known : stream_status_of n channel_balance_cache_stream u.services ≡ u.service_status
  pub booted : u.boot_strapping ≡ false → (u.service_status ≡ active) ⊎ (u.service_status ≡ pending)
  pub booting : u.boot_strapping ≡ true → u.service_status ≢ active

-- An announcement that fits the flag.
announced-IsInStep :
    (n : ℕ) (st : Status) (now : ℕ) (u : Upkeep)
    → stream_status_of n channel_balance_cache_stream u.services ≡ u.service_status
    → (u.boot_strapping ≡ false → (st ≡ active) ⊎ (st ≡ pending))
    → (u.boot_strapping ≡ true → st ≢ active)
    → IsInStep n (announce true n st now u).0
announced-IsInStep n st now u h f t = record {
  known =
      stream-send_stream_event n channel_balance_cache_stream st u.service_status now u.services h;
  booted = f;
  booting = t;
}

-- The reads of the merged status only make maps.
stream-read :
    (n : ℕ) (rs : Services)
    → stream_status_of n channel_balance_cache_stream
        (get_channel_balance_cache_stream_status n rs).0
      ≡ stream_status_of n channel_balance_cache_stream rs
unfolding get_channel_balance_cache_stream_status
stream-read n rs = stream-init n channel_balance_cache_stream rs

-- The first round announces Initializing, whatever the registry had.
first_round-IsInStep :
    (n now : ℕ) (u : Upkeep) → u.boot_strapping ≡ true → IsInStep n (begin_round true n now u).0
unfolding begin_round send_stream_event
first_round-IsInStep n now u boot =
    let r = get_channel_balance_cache_stream_status n u.services in
    rw boot (record {
      known = stream-set_stream_status n channel_balance_cache_stream initializing true now r.0;
      booted = λ e. cc;
      booting = λ _ p. cc;
    })

begin_round-IsInStep :
    (n now : ℕ) (u : Upkeep)
    → stream_status_of n channel_balance_cache_stream u.services ≡ u.service_status
    → IsInStep n (begin_round true n now u).0
unfolding begin_round
begin_round-IsInStep n now u h =
    let r = get_channel_balance_cache_stream_status n u.services in
    let boot : Bool = u.boot_strapping || not (is_active r.1) in
    announced-IsInStep n (if boot then initializing else active) now
      (record u { boot_strapping = boot; services = r.0 }) (stream-read n u.services ∙ h)
      (λ e. inl (ap (λ b. if b then initializing else active) e)) (λ e. fits boot e)
  where
    fits : (b : Bool) → b ≡ true → (if b then initializing else active) ≢ active
    fits true e = λ p. cc
    fits false e = cc

finish_round-IsInStep :
    (n : ℕ) (failed : Bool) (now : ℕ) (u : Upkeep)
    → IsInStep n u
    → IsInStep n (finish_round true n failed now u).0
finish_round-IsInStep n true now u h =
    announced-IsInStep n pending now u h.known (λ _. inr refl) (λ _ p. cc)
finish_round-IsInStep n false now u h =
    let r = get_channel_balance_cache_stream_status n u.services in
    let u' : Upkeep = record u { services = r.0 } in
    let kept : IsInStep n u' = record {
      known = stream-read n u.services ∙ h.known;
      booted = h.booted;
      booting = h.booting;
    } in
    elim (Bool-cases (is_active r.1)) [
      | inl up ↦ rw up (
          announced-IsInStep n active now (record u' { boot_strapping = false }) kept.known
            (λ _. inl refl) (λ e. cc))
      | inr down ↦ rw down kept
    ]

meanwhile-IsInStep :
    (n : ℕ) (f : Services → Services) (u : Upkeep)
    → LeavesStream n f
    → IsInStep n u
    → IsInStep n (record u { services = f u.services })
meanwhile-IsInStep n f u keeps h = record {
  known = keeps u.services ∙ h.known;
  booted = h.booted;
  booting = h.booting;
}

module _ (wrapf : Bool → Bool) (n : ℕ) where
  -- A round that begins in step ends in step.
  synchronize-IsInStep :
      (r : Round) (u : Upkeep)
      → LeavesStream n r.meanwhile
      → IsInStep n (begin_round true n r.now (record u { services = r.before u.services })).0
      → IsInStep n (synchronize_data_from_lnd wrapf true n r u).0
  unfolding synchronize_data_from_lnd
  synchronize-IsInStep r u calm begins =
      let before : Upkeep = record u { services = r.before u.services } in
      let begun : Upkeep = (begin_round true n r.now before).0 in
      finish_round-IsInStep n (initialize_channel_balance_from_lnd wrapf n r.answers).1 r.now
        (record begun { services = r.meanwhile begun.services })
        (meanwhile-IsInStep n r.meanwhile begun calm begins)

  -- After every number of rounds but none, whatever statuses the registry has before the first, and
  -- with whatever LND, the database and the other goroutines answer and do, as long as these leave
  -- the status of the channel balance cache's stream alone: the registry's status of the stream is
  -- the one that the loop keeps. It is Active or Pending where the loop is not bootstrapping, and is
  -- not Active where it is.
  pub maintain-IsInStep :
      (r : Round) (l : List Round) (rs : Services)
      → All (IsUndisturbed n) (r ∷ l)
      → IsInStep n (maintain wrapf true n (r ∷ l) (start rs)).0
  unfolding maintain
  maintain-IsInStep r l rs calm =
      rounds l (synchronize_data_from_lnd wrapf true n r (start rs)).0 calm.1 (
        synchronize-IsInStep r (start rs) calm.0.1
          (first_round-IsInStep n r.now (record (start rs) { services = r.before rs }) refl))
    where
      rounds :
          (l : List Round) (u : Upkeep)
          → All (IsUndisturbed n) l
          → IsInStep n u
          → IsInStep n (maintain wrapf true n l u).0
      rounds [] u calm h = h
      rounds (r ∷ l) u calm h =
          let next =
            begin_round-IsInStep n r.now (record u { services = r.before u.services })
              (calm.0.0 u.services ∙ h.known) in
          rounds l (synchronize_data_from_lnd wrapf true n r u).0 calm.1
            (synchronize-IsInStep r u calm.0.1 next)
