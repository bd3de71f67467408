-- ===== src/ChannelCache/Tests.antt =====
-- A channel that is opened and closed (pkg/commons/managedChannel.go).
use torq.Prelude.{
  ℕ, ◌<◌, ◌≡◌, ◌≢◌, refl, sym, subst, ◌∙◌, inl, inr, false, Bool-cases, none, some, [], ◌∷◌, arith,
  All, nat_eq,
}
use torq.Prelude.Map.{Map, lookup, insert}
use torq.Prelude.Text.{Text, bytes, same_text, same_text_iff, text_eq}
use torq.Runtime.{Outcome, returns, panics, blocks}
use torq.Constants.{cooperative_closed, open_channel}
use torq.ShortIds.Text.{decimal, atoi, split, read_digits}
use torq.ShortIds.Convert.{
  convert_lnd_short_channel_id, convert_short_channel_id_to_lnd, create_channel_point,
}
use torq.ChannelCache.Types.{Message, no_reply, Cache}
use torq.ChannelCache.Process.{
  parse_and_convert_short_ids, write_whole_channel, dispatch, process, empty, run,
}
use torq.ChannelCache.Clients.{
  set_channel, get_active_channel_id_by_funding_transaction, get_channel_id_by_lnd_short_channel_id,
  get_channel_id_by_channel_point, get_channel_status_by_channel_id,
}
use torq.ChannelCache.Consistent.{run-IsConsistent}
use torq.ChannelCache.Names.{IsConsistent}
use torq.ChannelCache.Closing.{HasOneName}
use torq.ChannelCache.ReadBack.{set_channel-read_back}

-- 70x2x1
abbrev lnd : ℕ
lnd = 76965814075393

abbrev hash : Text
hash = bytes "ab"

abbrev opens : Message
opens =
    set_channel 5 (some (convert_lnd_short_channel_id lnd)) open_channel hash 1 1000 false 1 2 none
      none

abbrev cache_of : {A : Type 0} → Outcome (Cache × A) → Cache
cache_of (returns r) = r.0
cache_of panics = empty
cache_of blocks = empty

abbrev opened : Cache
opened = cache_of (run (opens ∷ []) empty)

run-opened : run (opens ∷ []) empty ≡ returns (opened, no_reply ∷ [])
unfolding run process dispatch write_whole_channel parse_and_convert_short_ids set_channel lookup
    insert same_text convert_lnd_short_channel_id convert_short_channel_id_to_lnd
    create_channel_point decimal atoi split read_digits
run-opened = refl

run-IsConsistent_example : IsConsistent opened
run-IsConsistent_example = run-IsConsistent (opens ∷ []) opened (no_reply ∷ []) run-opened

-- The only short id and the only channel point of the opened channel.
abbrev single : Text → Map Text ℕ
single s = (s, 5) ∷ []

single-HasOneName : (k : Text) → HasOneName 5 (single k)
unfolding lookup
single-HasOneName k s t hs ht = let first : k ≡ s = own k s hs in sym first ∙ own k t ht
  where
    own : (j u : Text) → lookup u (single j) ≡ some 5 → j ≡ u
    own j u h = elim (Bool-cases (same_text j u)) [
      | inl same ↦ (same_text_iff j u).0 same
      | inr other ↦ ground (arith, other, h)
    ]

-- The opened channel, with its texts written out.
abbrev sample : Cache
sample = record opened {
  short_channel_ids = single (bytes "70x2x1");
  channel_points = single (bytes "ab:1");
}

sample-opened : sample ≡ opened
unfolding run process dispatch write_whole_channel parse_and_convert_short_ids set_channel lookup
    insert same_text convert_lnd_short_channel_id convert_short_channel_id_to_lnd
    create_channel_point decimal atoi split read_digits
sample-opened = refl

sample-IsConsistent : IsConsistent sample
sample-IsConsistent =
    subst IsConsistent (sym sample-opened)
      (run-IsConsistent (opens ∷ []) opened (no_reply ∷ []) run-opened)

hash_no_colon : All (λ x. x ≢ 58) hash
hash_no_colon = ((λ e. omega (arith, e)), ((λ e. omega (arith, e)), tt))

set_channel-read_back_example :
    (after : Cache) × (process
        (set_channel 5
          (some (convert_lnd_short_channel_id lnd))
          open_channel
          hash
          1
          1000
          false
          1
          2
          none
          none)
        empty
      ≡ returns (after, no_reply))
    × (get_channel_id_by_lnd_short_channel_id lnd after ≡ returns 5)
    × (get_channel_id_by_channel_point (create_channel_point hash 1) after ≡ returns 5)
    × (get_channel_status_by_channel_id 5 after ≡ returns open_channel)
    × (open_channel < cooperative_closed
        → get_active_channel_id_by_funding_transaction hash 1 after ≡ returns 5)
unfolding same_text
set_channel-read_back_example =
    set_channel-read_back empty 5 lnd open_channel 1 1000 1 2 hash false none none
      (λ e. omega (arith, e)) (λ e. omega (arith, e)) (omega arith) refl hash_no_colon (omega arith)
