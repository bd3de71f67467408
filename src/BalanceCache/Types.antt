-- ===== src/BalanceCache/Types.antt =====
-- What `processBroadcastedEvent` of pkg/lnd/channelBalanceCache.go tells apart: the events that
-- it handles, and LND's numbers for the values that it compares with.
use torq.Prelude.{ℕ}
use torq.Events.{
  HtlcEvent, ChannelEvent, ChannelGraphEvent, InvoiceEvent, PeerEvent, PaymentEvent, ForwardEvent,
  CloseChannelResponse, UpdateChannelResponse,
}
use torq.Services.Types.{ServiceEvent}

-- The numbers that lnrpc gives to its enumerations. They are not code of the repository.
pub record LndCodes : Type 0 where
  pub active_channel : ℕ  -- ChannelEventUpdate_ACTIVE_CHANNEL
  pub inactive_channel : ℕ
  pub closed_channel : ℕ
  pub settled : ℕ  -- Invoice_SETTLED
  pub succeeded : ℕ  -- Payment_SUCCEEDED
  pub peer_online : ℕ  -- PeerEvent_PEER_ONLINE
  pub peer_offline : ℕ

-- An event of the broadcaster by its dynamic type. `other` is any type that is not tested for.
pub data Broadcasted : Type 0 where
  service_event : ServiceEvent → Broadcasted
  channel_event : ChannelEvent → Broadcasted
  channel_graph_event : ChannelGraphEvent → Broadcasted
  forward_event : ForwardEvent → Broadcasted
  invoice_event : InvoiceEvent → Broadcasted
  payment_event : PaymentEvent → Broadcasted
  htlc_event : HtlcEvent → Broadcasted
  peer_event : PeerEvent → Broadcasted
  close_channel_response : CloseChannelResponse → Broadcasted
  update_channel_response : UpdateChannelResponse → Broadcasted
  other : Broadcasted
