-- ===== src/BalanceCache/Unknown.antt =====
-- An initialisation that meets a channel which the channel cache does not know
-- (pkg/lnd/channelBalanceCache.go).
use torq.Prelude.{
  ℕ, ◌≡◌, refl, ap, ◌∙◌, Bool, true, false, some, List, [], ◌∷◌, ◌++◌, All, arith, ◌==◌, nat_eq,
  if◌then◌else◌,
}
use torq.Constants.{active}
use torq.Services.Reads.{get_channel_balance_cache_stream_status}
use torq.BalanceCache.Initial.{
  LndChannel, Answers, halted, send_collected, from_listed, collect,
  initialize_channel_balance_from_lnd,
}
use torq.BalanceCache.Loaded.{id_in, IsKnown}
use torq.BalanceCache.Sync.{Upkeep, Round, begin_round, synchronize_data_from_lnd}

module _ (wrapf : Bool → Bool) (n : ℕ) where
  -- The loop returns the nil error at the first channel that is not known.
  collect_unknown :
      (a : Answers) (before : List LndChannel) (ch : LndChannel) (after : List LndChannel)
      → All (IsKnown a) before
      → id_in a ch ≡ 0
      → wrapf false ≡ false
      → collect wrapf n a (before ++ (ch ∷ after)) ≡ halted false
  unfolding collect
  collect_unknown a [] ch after k zero_id nil = rw (zero_id, nil)
  collect_unknown a (x ∷ before) ch after k zero_id nil =
      let (nz, (local, at_local), (remote, at_remote)) = k.0 in
      let given : (id_in a x == 0) ≡ false = ground arith in
      rw (given, at_local, at_remote, collect_unknown a before ch after k.1 zero_id nil)

  initialize_unknown :
      (a : Answers) (before : List LndChannel) (ch : LndChannel) (after : List LndChannel)
      → a.is_locked ≡ false
      → a.listed ≡ some (before ++ (ch ∷ after))
      → All (IsKnown a) before
      → id_in a ch ≡ 0
      → wrapf false ≡ false
      → initialize_channel_balance_from_lnd wrapf n a ≡ ([], false)
  unfolding initialize_channel_balance_from_lnd
  initialize_unknown a before ch after unlocked listed k zero_id nil =
      ap (λ b. if b then ([], true) else from_listed wrapf n a a.listed) unlocked
      ∙ ap (from_listed wrapf n a) listed
      ∙ ap (send_collected n a.status) (collect_unknown a before ch after k zero_id nil)

  -- One unknown channel in LND's list, with only known ones before it: the round sends nothing to the
  -- channel state cache, and yet ends the bootstrapping and announces the status Active, where the
  -- streams are active at its end. `wrapf` gives nil for nil, as the library documents.
  pub unknown_channel-announced_active :
      (r : Round) (u : Upkeep) (before : List LndChannel) (ch : LndChannel)
      (after : List LndChannel)
      → r.answers.is_locked ≡ false
      → r.answers.listed ≡ some (before ++ (ch ∷ after))
      → All (IsKnown r.answers) before
      → id_in r.answers ch ≡ 0
      → wrapf false ≡ false
      → (get_channel_balance_cache_stream_status n (
          r.meanwhile
            (begin_round true n r.now (record u { services = r.before u.services })).0.services)).1
        ≡ active
      → let ended = synchronize_data_from_lnd wrapf true n r u in
        (ended.2 ≡ []) × (ended.0.boot_strapping ≡ false) × (ended.0.service_status ≡ active)
  unfolding synchronize_data_from_lnd
  unknown_channel-announced_active r u before ch after unlocked listed k zero_id nil up =
      rw (initialize_unknown r.answers before ch after unlocked listed k zero_id nil, up)
        (refl, refl, refl)
