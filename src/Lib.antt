-- ===== src/Lib.antt =====
-- Verification of torq, a node management application for the Lightning Network.
--
-- The Go program keeps the state of the managed nodes in memory, in caches that are goroutines of
-- their own: each reads messages from a channel, one at a time, and answers on a channel that the
-- message carries. Around them, a registry per service type keeps the life cycle of the services and
-- of the streams that feed the caches, and the web server answers views of the database. These files
-- model the parts below as functions on explicit states.
--
-- What stands where (paths from the repository's root):
--   ChannelState/: pkg/commons/managedChannelState.go, the cache of the channels of each node.
--     `ManagedChannelStateCache` is the loop `run`, `processManagedChannelStateSettings` is `process`
--     with one function per case of its switch (Reads, Writes, Htlcs), and the exported clients are
--     the messages that they send (Clients).
--   ChannelCache/: pkg/commons/managedChannel.go, the cache of all channels, whose loop is
--     `ManagedChannelCache`: Process has the switch, Clients the exported functions with their
--     messages and what they take from the replies. The channel state cache reads capacities from it,
--     so a turn of the channel state's loop carries what the channel cache holds at that moment.
--   Corridors/: internal/corridors/corridor.go. Cache has the operations, Priority the bits of the
--     priorities, Fits and Best the description of the table that the cache is compared with.
--   Services/: pkg/commons/services.go. Operations and Reads have one function per method, Calls the
--     calls as data and runs of them, Follow a listener to the events.
--   QueryParser/: internal/query_parser, the filters and orders of the views' requests.
--   ShortIds/: pkg/commons/functions.go, the conversions of short channel ids and channel points, with
--     the decimal numbers (Text, Decimal) and the bits (Bits) that they rest on. A number is written
--     with at most 20 digits, which is enough below 2 ^ 64.
--   BalanceCache/: pkg/lnd/channelBalanceCache.go. Dispatch turns a broadcast event into messages to the
--     channel state cache (`processBroadcastedEvent`), Initial is `initializeChannelBalanceFromLnd`, and
--     Sync has the rounds of `synchronizeDataFromLnd` and their loop, which use the services registry.
--     Deliver runs an event on the caches, with no other message between its own.
--   Broadcast/: pkg/broadcast/broadcast.go, the loop `serve` over what it is asked and given, and its
--     three ends. The events that it delivers are those that BalanceCache handles.
--   NodeCache/: pkg/commons/managedNode.go, with the maps from public keys to ids in Ids.
--   GroupCache/: pkg/commons/managedChannelGroup.go. A pointer to a category has an address, since the
--     code compares pointers.
--   SettingsCache: pkg/commons/managedSettings.go.
--   Channels/: internal/channels. Update, Opening, Closing and Batch have the requests to LND and the
--     responses of update_channel.go, open_channel.go, close_channel.go and batch_open_channel.go.
--     The events of Update are those that BalanceCache handles.
--   Payments/: internal/payments/new_payment.go.
--   Streams: the loop over a stream of LND that openings, closes and payments share. Hex:
--     Go's encoding/hex.
--   Constants, Events: pkg/commons/constants.go and the events of pkg/commons/events.go that the
--     above handle.
--   Prelude (tests on numbers, lists, maps, texts), Words (64-bit arithmetic), Runtime (how a handler
--     ends): shared helpers.
--
-- How the code is read:
--   An `int`, `int64` or `uint64` that is computed with is its bit pattern, a number below 2 ^ 64, and
--   sums and differences wrap around; a `time.Time` is a number of nanoseconds, and each call of
--   `time.Now()` is an argument. Where one call reads the clock more than once, the model gives it one
--   time. A Go map is a list of entries; where the code ranges over a map, the model goes through the
--   list from its front, and Go in any order. A pointer that may be nil is an Option. An operation
--   holds its mutex, or is alone in its goroutine, from its start to its end, so it is one step. A
--   handler returns, panics, or blocks for ever on a channel that is nil (Runtime). Log lines are left
--   out. All loops run over finite lists or maps and are structural recursions; only the writing of decimal numbers has fuel, for 20 digits.
--
--   Arguments that stand for code that is not here: `json.Unmarshal`, `strcase.ToSnake` and the
--   printing of `fmt` in QueryParser, and the rows that the database gives in Corridors. The squirrel
--   expressions are the literals that the code builds. In BalanceCache, what LND lists, the policies of the
--   database, the answers of the other caches, what other goroutines do to the registry during a round,
--   LND's numbers for its enumerations, and `errors.Wrapf`, are arguments.
--
--   In Channels and Payments a stream is the list of what `Recv` gives, an error keeps its outermost
--   text, and the answers of LND and the text of a chain hash are arguments. LND gives each attempt of
--   a payment with its route. A listener takes every event that is sent to it.
--
-- What is not modelled: the scheduling of the goroutines that connect the parts, the access to the
-- database and the SQL, the gRPC streams from LND, the handlers of the HTTP routes, start-up and
-- configuration, the web client, and the virtual network for tests.
pub mod Prelude
pub mod Words
pub mod Runtime
pub mod Constants
pub mod Events
pub mod ChannelCache
pub mod ChannelState
pub mod Corridors
pub mod Services
pub mod QueryParser
pub mod ShortIds
pub mod BalanceCache
pub mod Broadcast
pub mod NodeCache
pub mod GroupCache
pub mod SettingsCache
pub mod Hex
pub mod Streams
pub mod Channels
pub mod Payments
