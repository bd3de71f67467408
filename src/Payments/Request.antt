-- ===== src/Payments/Request.antt =====
-- The request to LND (`newSendPaymentRequest` of internal/payments/new_payment.go).
use torq.Prelude.{ℕ, Bool, false, Option, none, some, []}
use torq.Prelude.Text.{Text}
use torq.Events.{NewPaymentRequest}

-- `routerrpc.SendPaymentRequest`: the fields that the code sets.
pub record SendPaymentRequest : Type 0 where
  pub timeout_seconds : ℕ
  pub payment_request : Text
  pub fee_limit_msat : ℕ
  pub amt_msat : ℕ
  pub allow_self_payment : Bool

abbrev pub value_or {ℓ} : {A : Type ℓ} → A → Option A → A
value_or zero_value none = zero_value
value_or zero_value (some a) = a

-- The code tests for a limit of 0, which is also what an unset limit is.
unfoldable pub new_send_payment_request : NewPaymentRequest → SendPaymentRequest
new_send_payment_request r = record {
  timeout_seconds = r.time_out_secs;
  payment_request = value_or [] r.invoice;
  fee_limit_msat = value_or 0 r.fee_limit_msat;
  amt_msat = value_or 0 r.amt_msat;
  allow_self_payment = value_or false r.allow_self_payment;
}
