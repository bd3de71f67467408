-- ===== src/BalanceCache/Frame.antt =====
-- An event changes the cached channels that it is about and no other
-- (pkg/lnd/channelBalanceCache.go).
use torq.Prelude.{
  ap, sym, subst, Bool, true, false, if◌then◌else◌, ℕ, ◌≡◌, ◌∙◌, ◌≢◌, ◌⊎◌, inl, inr, none, some,
  Option, List, [], ◌∷◌, ◌++◌, map, Memᴰ, All, All-append, arith, nat_eq,
}
use mathlib.Core.List.Memᴰ.{head, tail}
use torq.Constants.{Status}
use torq.Runtime.{Outcome, returns, OnReturn, >>=-eq-returns}
use torq.Events.{ChannelGraphEvent, PaymentEvent, UpdateChannelRequest}
use torq.ChannelCache.Types as ChannelTypes
use torq.ChannelState.Types.{Settings, Message, Cache}
use torq.ChannelState.Reads.{find_channel}
use torq.ChannelState.Process.{process}
use torq.ChannelState.Frame.{Names, process-frame}
use torq.ChannelState.Clients.{
  set_channel_state_node_status, set_channel_state_channel_status, set_channel_state_routing_policy,
  set_channel_state_balance_update_msat, set_channel_state_balance_update,
  set_channel_state_balance_htlc_event,
}
use torq.BalanceCache.Types.{
  LndCodes, Broadcasted, service_event, channel_event, channel_graph_event, forward_event,
  invoice_event, payment_event, htlc_event, peer_event, close_channel_response,
  update_channel_response, other,
}
use torq.BalanceCache.Dispatch.{
  on_service, on_channel, graph_messages, on_graph, update_if_some, on_forward, on_invoice,
  payment_messages, on_payment, on_htlc, on_peer, on_close, update_messages, on_update, peer_status,
  process_broadcasted_event,
}
use torq.BalanceCache.Deliver.{ids_of, state_of, deliver, handle}

-- The event is about channel `ch` of node `n`, where `ids` gives the channels of a node.
abbrev pub Concerns : (ℕ → List ℕ) → Broadcasted → ℕ → ℕ → Type 0
Concerns ids (service_event e) n ch = ⊥
Concerns ids (channel_event e) n ch = (e.node_id ≡ n) × (e.channel_id ≡ ch)
Concerns ids (channel_graph_event e) n ch = (e.node_id ≡ n) × (e.channel_id ≡ some ch)
Concerns ids (forward_event e) n ch =
    (e.node_id ≡ n) × ((e.incoming_channel_id ≡ some ch) ⊎ (e.outgoing_channel_id ≡ some ch))
Concerns ids (invoice_event e) n ch = (e.node_id ≡ n) × (e.channel_id ≡ ch)
Concerns ids (payment_event e) n ch = (e.node_id ≡ n) × (e.outgoing_channel_id ≡ some ch)
Concerns ids (htlc_event e) n ch =
    (e.node_id ≡ n) × ((e.incoming_channel_id ≡ some ch) ⊎ (e.outgoing_channel_id ≡ some ch))
Concerns ids (peer_event e) n ch = (e.node_id ≡ n) × Memᴰ ch (ids e.event_node_id)
Concerns ids (close_channel_response e) n ch = ⊥
Concerns ids (update_channel_response e) n ch =
    (e.request.node_id ≡ n) × (e.request.channel_id ≡ some ch)
Concerns ids other n ch = ⊥

module _ (n ch : ℕ) where
  unfoldable Silent : List Message → Type 0
  Silent ms = All (λ m. ¬ Names m n ch) ms

  none-Silent : Silent []
  unfolding Silent
  none-Silent = tt

  one-Silent : (m : Message) → ¬ Names m n ch → Silent (m ∷ [])
  unfolding Silent
  one-Silent m h = (h, tt)

  append-Silent : (a b : List Message) → Silent a → Silent b → Silent (a ++ b)
  unfolding Silent
  append-Silent a b ha hb = All-append _ a b ha hb

  graph-Silent :
      (e : ChannelGraphEvent) (channel_id announcing : Option ℕ)
      → ¬ ((e.node_id ≡ n) × (channel_id ≡ some ch))
      → Silent (graph_messages e channel_id announcing)
  unfolding Silent set_channel_state_routing_policy
  graph-Silent e (some channel_id) (some announcing) h = (λ p. h (p.0, ap some p.1), tt)
  graph-Silent e none _ h = tt
  graph-Silent e (some _) none h = tt

  update-Silent :
      (node : ℕ) (channel_id : Option ℕ) (up : Bool) (amount : ℕ)
      → ¬ ((node ≡ n) × (channel_id ≡ some ch))
      → Silent (update_if_some node channel_id up amount)
  unfolding Silent set_channel_state_balance_update_msat
  update-Silent node none up amount h = tt
  update-Silent node (some channel_id) up amount h = (λ p. h (p.0, ap some p.1), tt)

  payment-Silent :
      (e : PaymentEvent) (channel_id : Option ℕ)
      → ¬ ((e.node_id ≡ n) × (channel_id ≡ some ch))
      → Silent (payment_messages e channel_id)
  unfolding Silent set_channel_state_balance_update
  payment-Silent e none h = tt
  payment-Silent e (some channel_id) h = (λ p. h (p.0, ap some p.1), tt)

  peer-Silent :
      (node : ℕ) (st : Status) (channel_ids : List ℕ)
      → ¬ ((node ≡ n) × Memᴰ ch channel_ids)
      → Silent (map (λ id. set_channel_state_channel_status node id st) channel_ids)
  unfolding Silent set_channel_state_channel_status
  peer-Silent node st [] h = tt
  peer-Silent node st (id ∷ l) h =
      (λ p. h (p.0, head (sym p.1)), peer-Silent node st l (λ p. h (p.0, tail p.1)))

  -- A guard that sends nothing is silent.
  guarded-Silent : (b : Bool) (ms : List Message) → Silent ms → Silent (if b then [] else ms)
  guarded-Silent true ms h = none-Silent
  guarded-Silent false ms h = h

  update_messages-Silent :
      (e : UpdateChannelRequest) (channel_id : Option ℕ) (current : Option Settings)
      → ¬ ((e.node_id ≡ n) × (channel_id ≡ some ch))
      → OnReturn Silent (update_messages e channel_id current)
  unfolding Silent set_channel_state_routing_policy
  update_messages-Silent e none current h = tt
  update_messages-Silent e (some channel_id) none h = tt
  update_messages-Silent e (some channel_id) (some current) h = (λ p. h (p.0, ap some p.1), tt)

  guarded-update :
      (b : Bool) (o : Outcome (List Message))
      → OnReturn Silent o
      → OnReturn Silent (if b then returns [] else o)
  guarded-update true o h = none-Silent
  guarded-update false o h = h

  -- What an event sends names no channel but those that it is about.
  messages-Silent :
      (l : LndCodes) (ids : ℕ → List ℕ) (current : ℕ → ℕ → Option Settings) (e : Broadcasted)
      → n ≢ 0
      → ¬ Concerns ids e n ch
      → OnReturn Silent (process_broadcasted_event l ids current e)
  unfolding process_broadcasted_event on_service on_channel on_graph on_forward on_invoice
      on_payment on_htlc on_peer on_close on_update set_channel_state_node_status
      set_channel_state_channel_status set_channel_state_balance_update_msat
      set_channel_state_balance_htlc_event
  messages-Silent l ids current (service_event e) nz h =
      guarded-Silent _ _ (guarded-Silent _ _ (one-Silent _ (λ p. p)))
  messages-Silent l ids current (channel_event e) nz h = guarded-Silent _ _ (one-Silent _ h)
  messages-Silent l ids current (channel_graph_event e) nz h =
      guarded-Silent _ _ (graph-Silent e e.channel_id e.announcing_node_id h)
  messages-Silent l ids current (forward_event e) nz h = guarded-Silent _ _ (
      append-Silent _ _
        (update-Silent e.node_id e.incoming_channel_id true e.amount_in_msat
          (λ p. h (p.0, inl p.1)))
        (update-Silent e.node_id e.outgoing_channel_id false e.amount_out_msat
          (λ p. h (p.0, inr p.1))))
  messages-Silent l ids current (invoice_event e) nz h = guarded-Silent _ _ (one-Silent _ h)
  messages-Silent l ids current (payment_event e) nz h =
      guarded-Silent _ _ (payment-Silent e e.outgoing_channel_id h)
  messages-Silent l ids current (htlc_event e) nz h = guarded-Silent _ _ (one-Silent _ h)
  messages-Silent l ids current (peer_event e) nz h =
      guarded-Silent _ _ (peer-Silent e.node_id (peer_status l e.type) (ids e.event_node_id) h)
  messages-Silent l ids current (close_channel_response e) nz h =
      guarded-Silent _ _ (one-Silent _ (λ p. nz (sym p.0)))
  messages-Silent l ids current (update_channel_response e) nz h =
      guarded-update _ _ (update_messages-Silent e.request e.request.channel_id _ h)
  messages-Silent l ids current other nz h = none-Silent

  -- Messages that do not name the channel leave it as it was.
  deliver-frame :
      (channels : ChannelTypes.Cache) (now : ℕ) (ms : List Message) (c c' : Cache)
      → Silent ms
      → deliver channels now ms c ≡ returns c'
      → find_channel c' n ch ≡ find_channel c n ch
  unfolding deliver Silent
  deliver-frame channels now [] c c' h q = ground arith
  deliver-frame channels now (m ∷ ms) c c' h q =
      let (r, first, rest) =
        >>=-eq-returns (process channels m now c) (λ r. deliver channels now ms r.0) q in
      deliver-frame channels now ms r.0 c' h.1 rest
      ∙ process-frame channels m now c r.0 r.1 n ch h.0 first

-- An event that the balance cache handles leaves the cached state of every channel that the event
-- is not about as it was, present or absent. A service event and the answer to a close request are
-- about no channel.
pub handle-frame :
    (l : LndCodes) (channels : ChannelTypes.Cache) (now : ℕ) (e : Broadcasted) (c c' : Cache)
    (n ch : ℕ)
    → n ≢ 0
    → ¬ Concerns (ids_of channels) e n ch
    → handle l channels now e c ≡ returns c'
    → find_channel c' n ch ≡ find_channel c n ch
unfolding handle
handle-frame l channels now e c c' n ch nz h q =
    let (ms, sent, done) =
      >>=-eq-returns (process_broadcasted_event l (ids_of channels) (state_of channels now c) e)
        (λ ms. deliver channels now ms c) q in
    deliver-frame n ch channels now ms c c'
      (subst (OnReturn (Silent n ch)) sent
        (messages-Silent n ch l (ids_of channels) (state_of channels now c) e nz h))
      done
