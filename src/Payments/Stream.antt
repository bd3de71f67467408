-- ===== src/Payments/Stream.antt =====
-- What a payment sends and how it ends (internal/payments/new_payment.go).
use torq.Prelude.{
  ◌≡◌, refl, ◌≢◌, Bool, false, Option, List, [], ◌∷◌, ◌++◌, map, String, arith, ◌==◌, nat_eq,
  if◌then◌else◌,
}
use torq.Prelude.Text.{Text}
use torq.Runtime.{Result, ok}
use torq.Events.{NewPaymentRequest}
use torq.Streams.{Received, update, stop, outcome, receive-all}
use torq.Payments.Request.{SendPaymentRequest, new_send_payment_request}
use torq.Payments.Response.{LndPayment, process_response}
use torq.Payments.Sending.{error_code, send_payment, send_new_payment}

-- A payment with a node sends one event for each state that LND gives before the stream ends, in
-- order, and none where nothing listens. It ends with nil at the end of the stream, and at an error
-- with the code for its text.
pub send_new_payment-ended :
    (send_payment_v2 : SendPaymentRequest → Result (List (Received LndPayment Text)))
    (listening : Bool) (r : NewPaymentRequest) (req_id : String) (us : List LndPayment)
    (last : Option Text) (rest : List (Received LndPayment Text))
    → r.node_id ≢ 0
    → send_payment_v2 (new_send_payment_request r) ≡ ok (map update us ++ (stop last ∷ rest))
    → send_new_payment send_payment_v2 listening r req_id
      ≡ (outcome error_code last, if listening then map (process_response r req_id) us else [])
unfolding send_new_payment send_payment
send_new_payment-ended v2 listening r req_id us last rest nz h =
    let given : (r.node_id == 0) ≡ false = ground arith in
    rw (given, h)
      (receive-all (λ p. ok (process_response r req_id p)) "" error_code listening
        (process_response r req_id) us last rest (λ p. refl))
