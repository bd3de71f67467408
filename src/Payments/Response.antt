-- ===== src/Payments/Response.antt =====
-- The event for a state of the payment (`processResponse` of internal/payments/new_payment.go).
use torq.Prelude.{ℕ, Option, none, some, List, [], ◌∷◌, ◌++◌, String}
use torq.Prelude.Text.{Text}
use torq.Events.{NewPaymentRequest, MppRecord, Hops, FailureDetails, Attempt, NewPaymentResponse}
use torq.Hex.{encode_to_string}
use torq.ShortIds.Convert.{convert_lnd_short_channel_id}

-- LND's messages: the fields that the code reads. A number of an enumeration is its text.
pub record LndMpp : Type 0 where
  pub total_amt_msat : ℕ
  pub payment_addr : List ℕ

pub record LndHop : Type 0 where
  pub chan_id : ℕ
  pub amt_to_forward_msat : ℕ
  pub expiry : ℕ
  pub pub_key : Text
  pub mpp_record : Option LndMpp

pub record LndFailure : Type 0 where
  pub failure_code : Text
  pub failure_source_index : ℕ
  pub height : ℕ

-- LND gives every attempt with its route.
pub record LndAttempt : Type 0 where
  pub attempt_id : ℕ
  pub status : Text
  pub attempt_time_ns : ℕ
  pub resolve_time_ns : ℕ
  pub preimage : List ℕ
  pub attempt_failure : Option LndFailure
  pub hops : List LndHop
  pub total_time_lock : ℕ
  pub total_amt_msat : ℕ

pub record LndPayment : Type 0 where
  pub status : Text
  pub payment_hash : Text
  pub payment_preimage : Text
  pub value_msat : ℕ
  pub creation_time_ns : ℕ
  pub failure_reason : Text
  pub fee_msat : ℕ
  pub htlcs : List LndAttempt

abbrev pub no_failure : FailureDetails
no_failure = record { reason = []; failure_source_index = 0; height = 0 }

abbrev pub zero_attempt : Attempt
zero_attempt = record {
  attempt_id = 0;
  status = [];
  route = record { total_time_lock = 0; hops = []; total_amt_msat = 0 };
  attempt_time_ns = 0;
  resolve_time_ns = 0;
  preimage = [];
  failure = no_failure;
}

abbrev pub mpp_record : Option LndMpp → MppRecord
mpp_record none = record { payment_addr = []; total_amt_msat = 0 }
mpp_record (some m) = record {
  payment_addr = encode_to_string m.payment_addr;
  total_amt_msat = m.total_amt_msat;
}

unfoldable pub hop_of : LndHop → Hops
hop_of h = record {
  chan_id = convert_lnd_short_channel_id h.chan_id;
  expiry = h.expiry;
  amt_to_forward_msat = h.amt_to_forward_msat;
  pub_key = h.pub_key;
  mpp_record = mpp_record h.mpp_record;
}

-- The failure stays as it is where the attempt has none.
abbrev pub or_failure : FailureDetails → Option LndFailure → FailureDetails
or_failure f none = f
or_failure f (some g) = record {
  reason = g.failure_code;
  failure_source_index = g.failure_source_index;
  height = g.height;
}

-- `append` for each hop.
unfoldable pub add_hops : List Hops → List LndHop → List Hops
add_hops hs [] = hs
add_hops hs (h ∷ l) = add_hops (hs ++ (hop_of h ∷ [])) l

-- One round of the loop over the attempts, which writes over the one attempt of the response.
unfoldable pub add_attempt : Attempt → LndAttempt → Attempt
add_attempt r a = record {
  attempt_id = a.attempt_id;
  status = a.status;
  route = record {
    total_time_lock = a.total_time_lock;
    hops = add_hops r.route.hops a.hops;
    total_amt_msat = a.total_amt_msat;
  };
  attempt_time_ns = a.attempt_time_ns;
  resolve_time_ns = a.resolve_time_ns;
  preimage = encode_to_string a.preimage;
  failure = or_failure r.failure a.attempt_failure;
}

unfoldable pub add_attempts : Attempt → List LndAttempt → Attempt
add_attempts r [] = r
add_attempts r (a ∷ l) = add_attempts (add_attempt r a) l

unfoldable pub process_response : NewPaymentRequest → String → LndPayment → NewPaymentResponse
process_response r req_id p = record {
  req_id = req_id;
  request = r;
  status = p.status;
  failure_reason = p.failure_reason;
  hash = p.payment_hash;
  preimage = p.payment_preimage;
  payment_request = [];
  amount_msat = p.value_msat;
  fee_limit_msat = 0;
  fee_paid_msat = p.fee_msat;
  creation_date = p.creation_time_ns;
  attempt = add_attempts zero_attempt p.htlcs;
}
