-- ===== src/Broadcast/Delivery.antt =====
-- Every value goes to the listeners of its moment (pkg/broadcast/broadcast.go): the loop with its
-- list of listeners against a description that knows no list.
use torq.Prelude.{
  ℕ, zero, suc, ◌+◌, ◌≡◌, refl, sym, ap, ◌∙◌, Bool, true, false, Bool-cases, Option, none, some,
  inl, inr, List, [], ◌∷◌, ◌++◌, arith, ◌==◌, if◌then◌else◌,
}
use mathlib.Core.List.{append-nil, append_assoc}
use torq.Broadcast.Serve.{
  same_channel, Request, add_listener, remove_listener, source_value, Server, position, sends,
}
use torq.Broadcast.Counting.{one_if, count}
use torq.Broadcast.Tidy.{IsTidy, taken_out, after, on_after, after-count, after-IsTidy, after_all}

module _ {ℓ} {V : Type ℓ} where
  -- What a channel receives, by its own requests alone: the values that come while it is subscribed.
  unfoldable pub received : ℕ → Bool → List (Request V) → List V
  received ch on [] = []
  received ch on (add_listener x ∷ l) =
      received ch (if same_channel x (some ch) then true else on) l
  received ch on (remove_listener x ∷ l) =
      received ch (if same_channel x (some ch) then false else on) l
  received ch on (source_value v ∷ l) = let rest = received ch on l in if on then v ∷ rest else rest

  -- The values that went to a channel.
  unfoldable pub values_of : ℕ → List (ℕ × V) → List V
  values_of ch [] = []
  values_of ch ((x, v) ∷ l) = let rest = values_of ch l in if x == ch then v ∷ rest else rest

  values_of-append :
      (ch : ℕ) (a b : List (ℕ × V)) → values_of ch (a ++ b) ≡ values_of ch a ++ values_of ch b
  unfolding values_of
  values_of-append ch [] b = refl
  values_of-append ch ((x, v) ∷ a) b = ground (arith, values_of-append ch a b)

  unfoldable repeated : ℕ → V → List V
  repeated zero v = []
  repeated (suc k) v = v ∷ repeated k v

  values_of-sends :
      (ch : ℕ) (v : V) (l : List (Option ℕ))
      → values_of ch (sends v l) ≡ repeated (count (some ch) l) v
  unfolding values_of sends count repeated
  values_of-sends ch v [] = refl
  values_of-sends ch v (none ∷ l) =
      let same : count (some ch) l ≡ 0 + count (some ch) l = omega arith in
      values_of-sends ch v l ∙ ap (λ k. repeated k v) same
  values_of-sends ch v (some x ∷ l) = elim (Bool-cases (x == ch)) [
    | inl e ↦
        let same : suc (count (some ch) l) ≡ 1 + count (some ch) l = omega arith in
        rw e (ap (λ r. v ∷ r) (values_of-sends ch v l) ∙ ap (λ k. repeated k v) same)
    | inr e ↦
        let same : count (some ch) l ≡ 0 + count (some ch) l = omega arith in
        rw e (values_of-sends ch v l ∙ ap (λ k. repeated k v) same)
  ]

  taken_out-sent : (o ch : Option ℕ) (s : Server V) → (taken_out o ch s).sent ≡ s.sent
  taken_out-sent none ch s = refl
  taken_out-sent (some i) none s = refl
  taken_out-sent (some i) (some ch) s = refl

  after-values :
      (ch : ℕ) (r : Request V) (l : List (Request V)) (s : Server V) (on : Bool)
      → count (some ch) s.listeners ≡ one_if on
      → values_of ch (after r s).sent ++ received ch (on_after ch r on) l
        ≡ values_of ch s.sent ++ received ch on (r ∷ l)
  unfolding received repeated
  after-values ch (add_listener x) l s on k = refl
  after-values ch (remove_listener x) l s on k =
      ap (λ m. values_of ch m ++ received ch (if same_channel x (some ch) then false else on) l)
        (taken_out-sent (position x s.listeners) x s)
  after-values ch (source_value v) l s on k =
      ap (λ m. m ++ received ch on l)
        (values_of-append ch s.sent (sends v s.listeners)
          ∙ ap (λ m. values_of ch s.sent ++ m)
              (values_of-sends ch v s.listeners ∙ ap (λ i. repeated i v) k))
      ∙ append_assoc (values_of ch s.sent) (repeated (one_if on) v) (received ch on l)
      ∙ ap (λ m. values_of ch s.sent ++ m) (whether on)
    where
      whether :
          (b : Bool)
          → repeated (one_if b) v ++ received ch on l
            ≡ (if b then v ∷ received ch on l else received ch on l)
      whether true = refl
      whether false = refl

  pub after_all-values :
      (ch : ℕ) (l : List (Request V)) (s : Server V) (on : Bool)
      → IsTidy l s
      → count (some ch) s.listeners ≡ one_if on
      → values_of ch (after_all l s).sent ≡ values_of ch s.sent ++ received ch on l
  unfolding received
  after_all-values ch [] s on h k = sym (append-nil (values_of ch s.sent))
  after_all-values ch (r ∷ l) s on h k =
      after_all-values ch l (after r s) (on_after ch r on) (after-IsTidy r l s h)
        (after-count ch r l s on h k)
      ∙ after-values ch r l s on k
