-- ===== src/Payments/Sending.antt =====
-- The payment on LND's stream (`SendNewPayment`, `sendPayment` of internal/payments/new_payment.go).
use torq.Prelude.{Bool, true, false, ◌||◌, List, [], ◌∷◌, String, ◌==◌, if◌then◌else◌}
use torq.Prelude.Text.{Text, bytes}
use torq.Runtime.{Result, ok, fails}
use torq.Events.{NewPaymentRequest, NewPaymentResponse}
use torq.Streams.{Received, Ended, receive, failed_with}
use torq.Payments.Request.{SendPaymentRequest, new_send_payment_request}
use torq.Payments.Response.{LndPayment, process_response}

unfoldable pub starts_with : Text → Text → Bool
starts_with [] t = true
starts_with (a ∷ s) [] = false
starts_with (a ∷ s) (b ∷ t) = let rest = starts_with s t in if a == b then rest else false

-- `strings.Contains(t, s)` is `contains s t`.
unfoldable pub contains : Text → Text → Bool
contains s [] = starts_with s []
contains s (b ∷ t) = let rest = contains s t in starts_with s (b ∷ t) || rest

-- The code for the text of an error of the stream: the first case that applies.
unfoldable pub error_code : Text → String
error_code e =
    if contains (bytes "AlreadyExists") e
    then "ALREADY_PAID"
    else if contains (bytes "UnknownPaymentHash") e
    then "INVALID_HASH"
    else if contains (bytes "InvalidPaymentRequest") e
    then "INVALID_PAYMENT_REQUEST"
    else if contains (bytes "checksum failed") e
    then "CHECKSUM_FAILED"
    else if contains (bytes "amount must be specified when paying a zero amount invoice") e
    then "AMOUNT_REQUIRED"
    else if contains (bytes "amount must not be specified when paying a non-zero  amount invoice") e
    then "AMOUNT_NOT_ALLOWED"
    else "UNKNOWN_ERROR"

-- `SendPaymentV2` gives the stream, or an error.
module _ (send_payment_v2 : SendPaymentRequest → Result (List (Received LndPayment Text)))
    (listening : Bool) (r : NewPaymentRequest) (req_id : String) where
  abbrev pub on_stream :
      Result (List (Received LndPayment Text)) → Ended String × List NewPaymentResponse
  on_stream (fails e) = (failed_with "Sending payment", [])
  on_stream (ok l) = receive (λ p. ok (process_response r req_id p)) "" error_code listening l

  unfoldable pub send_payment : Ended String × List NewPaymentResponse
  send_payment = on_stream (send_payment_v2 (new_send_payment_request r))

  -- `SendNewPayment` where the details of the node are found and LND is connected.
  unfoldable pub send_new_payment : Ended String × List NewPaymentResponse
  send_new_payment = if r.node_id == 0 then (failed_with "Node id is missing", []) else send_payment
