-- ===== src/Payments/Tests.antt =====
-- Payments on small streams, and the theorems at those (internal/payments/new_payment.go).
use torq.Prelude.{◌≡◌, refl, true, none, some, List, [], ◌∷◌, arith, nat_eq}
use torq.Prelude.Text.{Text, bytes}
use torq.Runtime.{Result, ok}
use torq.Events.{NewPaymentRequest}
use torq.Streams.{Received, update, failure, failed_with}
use torq.Hex.{encode_to_string}
use torq.Payments.Request.{SendPaymentRequest}
use torq.Payments.Response.{LndAttempt, LndPayment, LndHop, hop_of, process_response}
use torq.Payments.Sending.{starts_with, contains, error_code, send_new_payment}
use torq.Payments.Attempts.{process_response-attempts}
use torq.Payments.Stream.{send_new_payment-ended}

abbrev invoice : NewPaymentRequest
invoice = record {
  node_id = 1;
  invoice = some (bytes "lnbc1");
  time_out_secs = 60;
  dest = none;
  amt_msat = none;
  fee_limit_msat = some 0;
  allow_self_payment = none;
}

abbrev one_hop : LndHop
one_hop = record {
  chan_id = 879609302228860929;
  amt_to_forward_msat = 5000;
  expiry = 800100;
  pub_key = bytes "02";
  mpp_record = none;
}

abbrev refused_part : LndAttempt
refused_part = record {
  attempt_id = 11;
  status = bytes "FAILED";
  attempt_time_ns = 1;
  resolve_time_ns = 2;
  preimage = [];
  attempt_failure = some (record {
    failure_code = bytes "FEE_INSUFFICIENT";
    failure_source_index = 1;
    height = 800000;
  });
  hops = one_hop ∷ [];
  total_time_lock = 800100;
  total_amt_msat = 5000;
}

abbrev settled_part : LndAttempt
settled_part = record refused_part {
  attempt_id = 12;
  status = bytes "SUCCEEDED";
  attempt_failure = none;
  hops = record one_hop { pub_key = bytes "03" } ∷ [];
}

abbrev paid : LndPayment
paid = record {
  status = bytes "SUCCEEDED";
  payment_hash = bytes "aa";
  payment_preimage = bytes "bb";
  value_msat = 5000;
  creation_time_ns = 0;
  failure_reason = bytes "FAILURE_REASON_NONE";
  fee_msat = 1;
  htlcs = refused_part ∷ settled_part ∷ [];
}

-- The event of the payment that succeeded shows the failure and the hop of the attempt before.
process_response-attempts_example :
    let e = (process_response invoice "1" paid).attempt in
    (e.attempt_id ≡ 12)
    × (e.status ≡ bytes "SUCCEEDED")
    × (e.attempt_time_ns ≡ 1)
    × (e.resolve_time_ns ≡ 2)
    × (e.preimage ≡ encode_to_string [])
    × (e.route.total_time_lock ≡ 800100)
    × (e.route.total_amt_msat ≡ 5000)
    × (e.route.hops ≡ hop_of one_hop ∷ hop_of (record one_hop { pub_key = bytes "03" }) ∷ [])
    × (e.failure
        ≡ record { reason = bytes "FEE_INSUFFICIENT"; failure_source_index = 1; height = 800000 })
process_response-attempts_example =
    process_response-attempts invoice "1" paid (refused_part ∷ []) settled_part refl

abbrev already : Text
already = bytes "code = AlreadyExists"

already_paid : error_code already ≡ "ALREADY_PAID"
unfolding error_code contains starts_with
already_paid = refl

abbrev in_flight_then_error : SendPaymentRequest → Result (List (Received LndPayment Text))
in_flight_then_error q = ok (update paid ∷ failure already ∷ [])

send_new_payment-ended_example :
    send_new_payment in_flight_then_error true invoice "1"
    ≡ (failed_with (error_code already), process_response invoice "1" paid ∷ [])
send_new_payment-ended_example =
    send_new_payment-ended in_flight_then_error true invoice "1" (paid ∷ []) (some already) []
      (omega arith) refl
