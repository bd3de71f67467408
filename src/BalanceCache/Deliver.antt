-- ===== src/BalanceCache/Deliver.antt =====
-- An event of pkg/lnd/channelBalanceCache.go together with the caches that it reads and writes
-- (pkg/commons/managedChannelState.go, managedChannel.go), where no other message comes between.
use torq.Prelude.{ℕ, true, Option, none, List, [], ◌∷◌}
use torq.Runtime.{Outcome, returns, ◌>>=◌}
use torq.ChannelCache.Types as ChannelTypes
use torq.ChannelCache.Clients.{get_channel_ids_by_node_id}
use torq.ChannelState.Types.{Settings, Message, Reply, state, Cache}
use torq.ChannelState.Process.{process}
use torq.ChannelState.Clients.{get_channel_state}
use torq.BalanceCache.Types.{LndCodes, Broadcasted}
use torq.BalanceCache.Dispatch.{process_broadcasted_event}

-- What `GetChannelIdsByNodeId` and `GetChannelState` with a forced response give to their caller.
abbrev answered_ids : Outcome (List ℕ) → List ℕ
answered_ids (returns l) = l
answered_ids _ = []

abbrev pub ids_of : ChannelTypes.Cache → ℕ → List ℕ
ids_of channels n = answered_ids (get_channel_ids_by_node_id n channels)

abbrev pub answered_state : Outcome (Cache × Reply) → Option Settings
answered_state (returns (c, state s)) = s
answered_state _ = none

abbrev pub state_of : ChannelTypes.Cache → ℕ → Cache → ℕ → ℕ → Option Settings
state_of channels now c n ch = answered_state (process channels (get_channel_state n ch true) now c)

-- The channel state cache takes the messages one after the other.
unfoldable pub deliver : ChannelTypes.Cache → ℕ → List Message → Cache → Outcome Cache
deliver channels now [] c = returns c
deliver channels now (m ∷ ms) c = process channels m now c >>= λ r. deliver channels now ms r.0

unfoldable pub handle : LndCodes → ChannelTypes.Cache → ℕ → Broadcasted → Cache → Outcome Cache
handle l channels now e c =
    process_broadcasted_event l (ids_of channels) (state_of channels now c) e >>= λ ms.
    deliver channels now ms c
