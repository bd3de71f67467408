-- ===== src/Channels/Accepted.antt =====
-- Which requests to open channels are accepted (internal/channels/open_channel.go,
-- batch_open_channel.go).
use torq.Prelude.{
  ℕ, ◌≡◌, refl, ◌≢◌, ◌↔◌, inl, inr, false, Bool-cases, ◌&&◌, Option, none, some, List, [], ◌∷◌,
  arith, nat_eq, ◌==◌, All, subst,
}
use torq.Runtime.{Result, ok, fails, OnOk}
use torq.Events.{BatchOpenChannel, BatchOpenRequest}
use torq.Hex.{decode_string}
use torq.Channels.Update.{or_zero, is_given, is_empty}
use torq.Channels.Batch.{
  LndBatchChannel, LndBatchRequest, batch_channel, prepare_channel, before_rest, prepare_channels,
  batch_request, check_prepare_req,
}

-- A channel that can be opened: its key is hexadecimal and its amount is not 0.
abbrev pub IsUsable : BatchOpenChannel → Type 0
IsUsable c =
    (key : List ℕ) × (decode_string c.node_pubkey ≡ some key) × (c.local_funding_amount ≢ 0)

-- LND's channels are those of the request, in order, with their keys decoded.
abbrev pub ArePrepared : List BatchOpenChannel → List LndBatchChannel → Type 0
ArePrepared [] [] = Unit {0}
ArePrepared (c ∷ l) (b ∷ m) =
    (decode_string c.node_pubkey ≡ some b.node_pubkey)
    × (b ≡ batch_channel c b.node_pubkey)
    × (c.local_funding_amount ≢ 0)
    × ArePrepared l m
ArePrepared _ _ = ⊥

prepared :
    (l : List BatchOpenChannel)
    → All IsUsable l
    → (m : List LndBatchChannel) × (prepare_channels l ≡ ok m) × ArePrepared l m
unfolding prepare_channels
prepared [] h = ([], refl, tt)
prepared (c ∷ l) ((key, e, nz), h) =
    let (m, prep, are) = prepared l h in
    let given : (c.local_funding_amount == 0) ≡ false = ground arith in
    (batch_channel c key ∷ m, rw (e, given, prep), (e, refl, nz, are))

channel-IsUsable :
    (c : BatchOpenChannel) (o : Option (List ℕ))
    → decode_string c.node_pubkey ≡ o
    → OnOk (λ b. IsUsable c) (prepare_channel c o)
channel-IsUsable c none e = tt
channel-IsUsable c (some key) e = elim (Bool-cases (c.local_funding_amount == 0)) [
  | inl no_amount ↦ rw no_amount tt
  | inr given ↦ let nz : c.local_funding_amount ≢ 0 = ground arith in rw given (key, e, nz)
]

before_rest-OnOk {ℓ} :
    {A : Type ℓ} (P Q : Type 0) (x : Result A) (y : Result (List A))
    → OnOk (λ a. P) x
    → OnOk (λ l. Q) y
    → OnOk (λ l. P × Q) (before_rest x y)
before_rest-OnOk P Q (fails e) y p q = tt
before_rest-OnOk P Q (ok a) (fails e) p q = tt
before_rest-OnOk P Q (ok a) (ok l) p q = (p, q)

channels-IsUsable : (l : List BatchOpenChannel) → OnOk (λ m. All IsUsable l) (prepare_channels l)
unfolding prepare_channels
channels-IsUsable [] = tt
channels-IsUsable (c ∷ l) =
    before_rest-OnOk (IsUsable c) (All IsUsable l) (prepare_channel c (decode_string c.node_pubkey))
      (prepare_channels l) (channel-IsUsable c (decode_string c.node_pubkey) refl)
      (channels-IsUsable l)

-- A batch that can be opened.
abbrev pub IsAcceptable : BatchOpenRequest → Type 0
IsAcceptable r =
    (r.node_id ≢ 0)
    × (r.channels ≢ [])
    × ((is_given r.target_conf && is_given r.sat_per_vbyte) ≡ false)
    × All IsUsable r.channels

batch_request-OnOk :
    (P Q : Type 0) (r : BatchOpenRequest) (x : Result (List LndBatchChannel))
    → (P → Q)
    → OnOk (λ m. P) x
    → OnOk (λ q. Q) (batch_request r x)
batch_request-OnOk P Q r (fails e) f h = tt
batch_request-OnOk P Q r (ok m) f h = f h

not_empty_iff : {A : Type 0} (l : List A) → (is_empty l ≡ false) ↔ (l ≢ [])
not_empty_iff [] = (λ h. cc, λ ne. elim (ne refl) [ ])
not_empty_iff (x ∷ l) = (λ h e. cc, λ ne. refl)

accepted-IsAcceptable : (r : BatchOpenRequest) → OnOk (λ q. IsAcceptable r) (check_prepare_req r)
unfolding check_prepare_req
accepted-IsAcceptable r = elim (Bool-cases (r.node_id == 0)) [
  | inl no_node ↦ rw no_node tt
  | inr node ↦ elim (Bool-cases (is_empty r.channels)) [
    | inl empty ↦ rw (node, empty) tt
    | inr some_channel ↦ elim (Bool-cases (is_given r.target_conf && is_given r.sat_per_vbyte)) [
      | inl both ↦ rw (node, some_channel, both) tt
      | inr one ↦
          rw (node, some_channel, one)
            (batch_request-OnOk (All IsUsable r.channels) _ r (prepare_channels r.channels)
              (λ usable. (ground arith, (not_empty_iff r.channels).0 some_channel, refl, usable))
              (channels-IsUsable r.channels))
    ]
  ]
]

-- A batch is accepted exactly where it has a node and channels, at most one of the two settings of the
-- fee, and for each channel a key in hexadecimal and an amount other than 0. LND is then asked for the
-- channels of the request, in order, with the fee settings given.
pub check_prepare_req_iff :
    (r : BatchOpenRequest)
    → ((q : LndBatchRequest) × (check_prepare_req r ≡ ok q)
        × ArePrepared r.channels q.channels
        × (q.sat_per_vbyte ≡ or_zero r.sat_per_vbyte)
        × (q.target_conf ≡ or_zero r.target_conf))
      ↔ IsAcceptable r
unfolding check_prepare_req
check_prepare_req_iff r = (
  λ (q, h, _, _, _). subst (OnOk (λ q. IsAcceptable r)) h (accepted-IsAcceptable r),
  λ (nz, ne, one, usable).
      let (m, prep, are) = prepared r.channels usable in
      let node : (r.node_id == 0) ≡ false = ground arith in
      let some_channel : is_empty r.channels ≡ false = (not_empty_iff r.channels).1 ne in
      (_, rw (node, some_channel, one, prep), are, refl, refl),
)
