-- ===== src/BalanceCache/Dispatch.antt =====
-- `processBroadcastedEvent` of pkg/lnd/channelBalanceCache.go: the messages that it sends to the
-- channel state cache, one function for each type of event.
use torq.Prelude.{
  ℕ, Bool, true, false, ◌||◌, not, Option, none, some, List, [], ◌∷◌, ◌++◌, map, ◌==◌, ◌!=◌,
  if◌then◌else◌,
}
use torq.Runtime.{Outcome, returns, panics}
use torq.Constants.{
  Status, inactive, active, deleted, is_lnd_service, SubscriptionStream, is_channel_balance_cache,
}
use torq.Events.{
  HtlcEvent, ChannelEvent, ChannelGraphEvent, InvoiceEvent, PeerEvent, PaymentEvent, ForwardEvent,
  CloseChannelResponse, UpdateChannelRequest, UpdateChannelResponse,
}
use torq.Services.Types.{ServiceEvent}
use torq.ChannelState.Types.{Settings, Message}
use torq.ChannelState.Clients.{
  set_channel_state_node_status, set_channel_state_channel_status, set_channel_state_routing_policy,
  set_channel_state_balance_update_msat, set_channel_state_balance_update,
  set_channel_state_balance_htlc_event,
}
use torq.BalanceCache.Types.{
  LndCodes, Broadcasted, service_event, channel_event, channel_graph_event, forward_event,
  invoice_event, payment_event, htlc_event, peer_event, close_channel_response,
  update_channel_response, other,
}

-- `IsChannelBalanceCache` of a stream that may be nil.
abbrev pub is_balance_stream : Option SubscriptionStream → Bool
is_balance_stream none = false
is_balance_stream (some ss) = is_channel_balance_cache ss

-- `p == nil || *p == 0`
abbrev pub is_missing : Option ℕ → Bool
is_missing none = true
is_missing (some i) = i == 0

unfoldable pub on_service : ServiceEvent → List Message
on_service e =
    if e.node_id == 0 || not (is_lnd_service e.type)
    then []
    else if not (is_balance_stream e.subscription_stream)
    then []
    else set_channel_state_node_status e.node_id e.status ∷ []

-- The switches on the update types. A type that is not listed leaves the zero status, Inactive.
abbrev pub channel_status : LndCodes → ℕ → Status
channel_status l t =
    if t == l.active_channel
    then active
    else if t == l.inactive_channel
    then inactive
    else if t == l.closed_channel
    then deleted
    else inactive

abbrev pub peer_status : LndCodes → ℕ → Status
peer_status l t =
    if t == l.peer_online then active else if t == l.peer_offline then inactive else inactive

unfoldable pub on_channel : LndCodes → ChannelEvent → List Message
on_channel l e =
    if e.node_id == 0 || e.channel_id == 0
    then []
    else set_channel_state_channel_status e.node_id e.channel_id (channel_status l e.type) ∷ []

-- Behind the tests for nil and 0.
abbrev pub graph_messages : ChannelGraphEvent → Option ℕ → Option ℕ → List Message
graph_messages e (some channel_id) (some announcing) =
    set_channel_state_routing_policy e.node_id channel_id (announcing == e.node_id)
      e.current.disabled e.current.time_lock_delta e.current.min_htlc_msat e.current.max_htlc_msat
      e.current.fee_base_msat e.current.fee_rate_milli_msat
    ∷ []
graph_messages e _ _ = []

unfoldable pub on_graph : ChannelGraphEvent → List Message
on_graph e =
    if e.node_id == 0
      || is_missing e.channel_id
      || is_missing e.announcing_node_id
      || is_missing e.connecting_node_id
    then []
    else graph_messages e e.channel_id e.announcing_node_id

abbrev pub update_if_some : ℕ → Option ℕ → Bool → ℕ → List Message
update_if_some n none increase amount = []
update_if_some n (some channel_id) increase amount =
    set_channel_state_balance_update_msat n channel_id increase amount ∷ []

unfoldable pub on_forward : ForwardEvent → List Message
on_forward e =
    if e.node_id == 0
    then []
    else update_if_some e.node_id e.incoming_channel_id true e.amount_in_msat
      ++ update_if_some e.node_id e.outgoing_channel_id false e.amount_out_msat

unfoldable pub on_invoice : LndCodes → InvoiceEvent → List Message
on_invoice l e =
    if e.node_id == 0 || e.state != l.settled
    then []
    else set_channel_state_balance_update_msat e.node_id e.channel_id true e.amount_paid_msat ∷ []

abbrev pub payment_messages : PaymentEvent → Option ℕ → List Message
payment_messages e none = []
payment_messages e (some channel_id) =
    set_channel_state_balance_update e.node_id channel_id false e.amount_paid ∷ []

unfoldable pub on_payment : LndCodes → PaymentEvent → List Message
on_payment l e =
    if e.node_id == 0 || is_missing e.outgoing_channel_id || e.payment_status != l.succeeded
    then []
    else payment_messages e e.outgoing_channel_id

unfoldable pub on_htlc : HtlcEvent → List Message
on_htlc e = if e.node_id == 0 then [] else set_channel_state_balance_htlc_event e ∷ []

-- `channelIds` is what `GetChannelIdsByNodeId` answers.
unfoldable pub on_peer : LndCodes → List ℕ → PeerEvent → List Message
on_peer l channel_ids e =
    if e.node_id == 0 || e.event_node_id == 0
    then []
    else map (λ id. set_channel_state_channel_status e.node_id id (peer_status l e.type))
        channel_ids

-- The branch sends the ids of `channelEvent`, which is the zero value there.
unfoldable pub on_close : CloseChannelResponse → List Message
on_close e =
    if e.request.node_id == 0 then [] else set_channel_state_channel_status 0 0 deleted ∷ []

-- The value of the request, or the cached one where the request has none.
abbrev pub or_current : Option ℕ → ℕ → ℕ
or_current none current = current
or_current (some v) current = v

abbrev pub merged_policy : UpdateChannelRequest → ℕ → Settings → Message
merged_policy r channel_id current =
    set_channel_state_routing_policy r.node_id channel_id true current.local_disabled
      (or_current r.time_lock_delta current.local_time_lock_delta)
      (or_current r.min_htlc_msat current.local_min_htlc_msat)
      (or_current r.max_htlc_msat current.local_max_htlc_msat)
      (or_current r.fee_base_msat current.local_fee_base_msat)
      (or_current r.fee_rate_milli_msat current.local_fee_rate_milli_msat)

-- `currentStates` is what `GetChannelState` answers, and nil is dereferenced.
abbrev pub update_messages :
    UpdateChannelRequest → Option ℕ → Option Settings → Outcome (List Message)
update_messages r none current = returns []
update_messages r (some channel_id) none = panics
update_messages r (some channel_id) (some current) =
    returns (merged_policy r channel_id current ∷ [])

unfoldable pub on_update : Option Settings → UpdateChannelResponse → Outcome (List Message)
on_update current e =
    if e.request.node_id == 0 || is_missing e.request.channel_id
    then returns []
    else update_messages e.request e.request.channel_id current

-- One event reads at most once, before it sends: `ids` answers for the channel cache and `current`
-- for the channel state cache at the moment of the read.
unfoldable pub process_broadcasted_event :
    LndCodes
    → (ids : ℕ → List ℕ) → (current : ℕ → ℕ → Option Settings) → Broadcasted
    → Outcome (List Message)
process_broadcasted_event l ids current (service_event e) = returns (on_service e)
process_broadcasted_event l ids current (channel_event e) = returns (on_channel l e)
process_broadcasted_event l ids current (channel_graph_event e) = returns (on_graph e)
process_broadcasted_event l ids current (forward_event e) = returns (on_forward e)
process_broadcasted_event l ids current (invoice_event e) = returns (on_invoice l e)
process_broadcasted_event l ids current (payment_event e) = returns (on_payment l e)
process_broadcasted_event l ids current (htlc_event e) = returns (on_htlc e)
process_broadcasted_event l ids current (peer_event e) = returns (on_peer l (ids e.event_node_id) e)
process_broadcasted_event l ids current (close_channel_response e) = returns (on_close e)
process_broadcasted_event l ids current (update_channel_response e) =
    on_update (current e.request.node_id (or_current e.request.channel_id 0)) e
process_broadcasted_event l ids current other = returns []
