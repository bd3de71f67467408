-- ===== src/Payments/Attempts.antt =====
-- What the event of a payment says of its attempts (internal/payments/new_payment.go).
use torq.Prelude.{◌≡◌, refl, ap, ◌∙◌, sym, Option, none, some, List, [], ◌∷◌, ◌++◌, map, String}
use mathlib.Core.List.{append-nil, append_assoc}
use torq.Events.{NewPaymentRequest, Hops, FailureDetails, Attempt}
use torq.Hex.{encode_to_string}
use torq.Payments.Response.{
  LndAttempt, LndPayment, LndFailure, LndHop, hop_of, or_failure, no_failure, add_hops, add_attempt,
  add_attempts, zero_attempt, process_response,
}

abbrev pub all_hops : List LndAttempt → List Hops
all_hops [] = []
all_hops (a ∷ l) = map hop_of a.hops ++ all_hops l

abbrev pub later : Option LndFailure → Option LndFailure → Option LndFailure
later f none = f
later f (some g) = some g

-- The failure of the last attempt that has one.
abbrev pub last_failure : List LndAttempt → Option LndFailure
last_failure [] = none
last_failure (a ∷ l) = later a.attempt_failure (last_failure l)

add_hops-map : (hs : List Hops) (l : List LndHop) → add_hops hs l ≡ hs ++ map hop_of l
unfolding add_hops
add_hops-map hs [] = sym (append-nil hs)
add_hops-map hs (h ∷ l) =
    add_hops-map (hs ++ (hop_of h ∷ [])) l ∙ append_assoc hs (hop_of h ∷ []) (map hop_of l)

or_failure-later :
    (f : FailureDetails) (g h : Option LndFailure)
    → or_failure (or_failure f g) h ≡ or_failure f (later g h)
or_failure-later f g none = refl
or_failure-later f g (some h) = refl

hops_lem :
    (r : Attempt) (l : List LndAttempt) → (add_attempts r l).route.hops ≡ r.route.hops ++ all_hops l
unfolding add_attempts add_attempt
hops_lem r [] = sym (append-nil r.route.hops)
hops_lem r (a ∷ l) =
    hops_lem (add_attempt r a) l
    ∙ ap (λ hs. hs ++ all_hops l) (add_hops-map r.route.hops a.hops)
    ∙ append_assoc r.route.hops (map hop_of a.hops) (all_hops l)

failure_lem :
    (r : Attempt) (l : List LndAttempt)
    → (add_attempts r l).failure ≡ or_failure r.failure (last_failure l)
unfolding add_attempts add_attempt
failure_lem r [] = refl
failure_lem r (a ∷ l) =
    failure_lem (add_attempt r a) l ∙ or_failure-later r.failure a.attempt_failure (last_failure l)

add_attempts-last :
    (r : Attempt) (l : List LndAttempt) (a : LndAttempt)
    → add_attempts r (l ++ (a ∷ [])) ≡ add_attempt (add_attempts r l) a
unfolding add_attempts
add_attempts-last r [] a = refl
add_attempts-last r (b ∷ l) a = add_attempts-last (add_attempt r b) l a

-- The event of a payment has one attempt, which mixes those of LND: its id, status, times, preimage
-- and totals are those of the last attempt, its hops are the hops of all attempts one after another,
-- and its failure is the failure of the last attempt that has one, which an attempt without a failure
-- may follow.
pub process_response-attempts :
    (r : NewPaymentRequest) (req_id : String) (p : LndPayment) (l : List LndAttempt)
    (a : LndAttempt)
    → p.htlcs ≡ l ++ (a ∷ [])
    → let e = (process_response r req_id p).attempt in
      (e.attempt_id ≡ a.attempt_id)
      × (e.status ≡ a.status)
      × (e.attempt_time_ns ≡ a.attempt_time_ns)
      × (e.resolve_time_ns ≡ a.resolve_time_ns)
      × (e.preimage ≡ encode_to_string a.preimage)
      × (e.route.total_time_lock ≡ a.total_time_lock)
      × (e.route.total_amt_msat ≡ a.total_amt_msat)
      × (e.route.hops ≡ all_hops p.htlcs)
      × (e.failure ≡ or_failure no_failure (last_failure p.htlcs))
unfolding process_response add_attempt
process_response-attempts r req_id p l a h =
    let last : add_attempts zero_attempt p.htlcs ≡ add_attempt (add_attempts zero_attempt l) a =
      ap (add_attempts zero_attempt) h ∙ add_attempts-last zero_attempt l a in
    (
      ap (λ e. e.attempt_id) last,
      ap (λ e. e.status) last,
      ap (λ e. e.attempt_time_ns) last,
      ap (λ e. e.resolve_time_ns) last,
      ap (λ e. e.preimage) last,
      ap (λ e. e.route.total_time_lock) last,
      ap (λ e. e.route.total_amt_msat) last,
      hops_lem zero_attempt p.htlcs,
      failure_lem zero_attempt p.htlcs,
    )
