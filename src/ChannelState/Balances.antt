-- ===== src/ChannelState/Balances.antt =====
-- What balance updates and HTLC events do to the balances of a cached channel.
use torq.Prelude.{
  ℕ, ◌<◌, ◌≡◌, refl, ◌≢◌, ◌↔◌, ◌||◌, Bool, false, some, arith, ◌==◌, nat_eq, if◌then◌else◌,
}
use torq.Words.{word, add64, neg64, sub64-add64}
use torq.Prelude.Map.{insert}
use torq.Runtime.{returns}
use torq.ChannelCache.Types as ChannelTypes
use torq.ChannelState.Types.{Settings, no_reply, Cache}
use torq.ChannelState.Reads.{find_channel}
use torq.ChannelState.Writes.{apply_balance, update_channel, write_update_balance}
use torq.ChannelState.Process.{process}
use torq.ChannelState.Clients.{set_channel_state_balance_update}
use torq.ChannelState.Find.{find-update_channel_self}

-- The signed change that a caller asks for.
abbrev pub signed : Bool → ℕ → ℕ
signed increase amount = if increase then amount else neg64 amount

-- A balance update of a cached channel moves the local balance by the amount asked for and counts
-- one more update. The remote balance becomes the local balance from before, whatever it was itself,
-- so that the sum of the two is kept exactly if the remote balance was already the new local one.
pub balance_update :
    (channels : ChannelTypes.Cache) (c : Cache) (n ch now amount : ℕ) (increase : Bool)
    (s : Settings)
    → n ≢ 0
    → ch ≢ 0
    → s.local_balance < word
    → s.remote_balance < word
    → find_channel c n ch ≡ some s
    → (c' : Cache) × (s' : Settings) × (process channels
          (set_channel_state_balance_update n ch increase amount)
          now
          c
        ≡ returns (c', no_reply))
      × (find_channel c' n ch ≡ some s')
      × (s'.local_balance ≡ add64 s.local_balance (signed increase amount))
      × (s'.num_updates ≡ add64 s.num_updates 1)
      × (s'.remote_balance ≡ s.local_balance)
      × ((add64 s'.local_balance s'.remote_balance ≡ add64 s.local_balance s.remote_balance)
          ↔ (s.remote_balance ≡ add64 s.local_balance (signed increase amount)))
unfolding process write_update_balance set_channel_state_balance_update apply_balance
balance_update channels c n ch now amount increase s nz cz l r found =
    let d : ℕ = signed increase amount in
    let s' : Settings = apply_balance d s in
    let given : (ch == 0 || n == 0) ≡ false = ground arith in
    let c' : Cache = update_channel (λ s m. insert ch (apply_balance d s) m) c n ch in
    (
      c',
      s',
      rw given,
      ground (arith, find-update_channel_self (apply_balance d) c n ch),
      refl,
      refl,
      sub64-add64 s.local_balance d l,
      (omega arith, omega arith),
    )
