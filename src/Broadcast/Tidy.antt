-- ===== src/Broadcast/Tidy.antt =====
-- What holds between the requests of `serve` (pkg/broadcast/broadcast.go) where each channel is
-- subscribed once: the loop never closes a nil or a closed channel.
use torq.Prelude.{
  ℕ, ◌+◌, ◌≤◌, ◌≡◌, refl, Bool, true, false, Option, none, some, Option-cases, inl, inr, List, [],
  ◌∷◌, ◌++◌, arith, ==_iff, if◌then◌else◌,
}
use torq.Runtime.{returns}
use torq.Broadcast.Serve.{
  same_channel, Request, add_listener, remove_listener, source_value, Server, position, set_at,
  last_or, drop_last, close, sends, step, run,
}
use torq.Broadcast.Counting.{
  one_if, count, count-append, count-removed, count_absent, count_present, closings, closings_none,
}

module _ {ℓ} {V : Type ℓ} where
  -- How often the requests subscribe a channel.
  unfoldable pub additions : Option ℕ → List (Request V) → ℕ
  additions y [] = 0
  additions y (add_listener ch ∷ l) = one_if (same_channel ch y) + additions y l
  additions y (_ ∷ l) = additions y l

  -- A channel that is to come, is there, or was there: once in all. No listener is nil.
  pub record IsTidy (l : List (Request V)) (s : Server V) : Type ℓ where
    pub once : (y : ℕ) → additions (some y) l + count (some y) s.listeners + closings y s.closed ≤ 1
    pub no_nil : additions none l + count none s.listeners ≡ 0

  -- A step that does not fail.
  abbrev pub taken_out : Option ℕ → Option ℕ → Server V → Server V
  taken_out (some i) (some ch) s = record s {
    listeners = drop_last (set_at i (last_or (some ch) s.listeners) s.listeners);
    closed = ch ∷ s.closed;
  }
  taken_out _ _ s = s

  abbrev pub after : Request V → Server V → Server V
  after (add_listener ch) s = record s { listeners = s.listeners ++ (ch ∷ []) }
  after (remove_listener ch) s = taken_out (position ch s.listeners) ch s
  after (source_value v) s = record s { sent = s.sent ++ sends v s.listeners }

  pub step-after :
      (r : Request V) (l : List (Request V)) (s : Server V)
      → IsTidy (r ∷ l) s
      → step r s ≡ returns (after r s)
  unfolding step close additions
  step-after (add_listener ch) l s h = refl
  step-after (source_value v) l s h = refl
  step-after (remove_listener none) l s h = elim (Option-cases (position none s.listeners)) [
    | inl absent ↦ rw absent
    | inr (i, at) ↦
        let there = count_present none i s.listeners at in absurd (omega (arith, h.no_nil))
  ]
  step-after (remove_listener (some ch)) l s h =
      elim (Option-cases (position (some ch) s.listeners)) [
        | inl absent ↦ rw absent
        | inr (i, at) ↦
            let there = count_present (some ch) i s.listeners at in
            let fresh = closings_none ch s.closed (omega (arith, h.once ch)) in rw (at, fresh)
      ]

  -- Channels only move on: from those to come to the listeners, and from there to the closed ones.
  pub after-balance :
      (y : ℕ) (r : Request V) (l : List (Request V)) (s : Server V)
      → additions (some y) l + count (some y) (after r s).listeners + closings y (after r s).closed
        ≡ additions (some y) (r ∷ l) + count (some y) s.listeners + closings y s.closed
  unfolding additions count closings
  after-balance y (add_listener ch) l s = omega (arith, count-append (some y) s.listeners (ch ∷ []))
  after-balance y (source_value v) l s = refl
  after-balance y (remove_listener none) l s = elim (Option-cases (position none s.listeners)) [
    | inl absent ↦ rw absent
    | inr (i, at) ↦ rw at
  ]
  after-balance y (remove_listener (some ch)) l s =
      elim (Option-cases (position (some ch) s.listeners)) [
        | inl absent ↦ rw absent
        | inr (i, at) ↦ rw at (omega (arith, count-removed (some y) (some ch) i s.listeners at))
      ]

  after-nil :
      (r : Request V) (l : List (Request V)) (s : Server V)
      → IsTidy (r ∷ l) s
      → additions none l + count none (after r s).listeners ≡ 0
  unfolding additions count
  after-nil (add_listener ch) l s h =
      omega (arith, h.no_nil, count-append none s.listeners (ch ∷ []))
  after-nil (source_value v) l s h = h.no_nil
  after-nil (remove_listener none) l s h = elim (Option-cases (position none s.listeners)) [
    | inl absent ↦ rw absent h.no_nil
    | inr (i, at) ↦ rw at h.no_nil
  ]
  after-nil (remove_listener (some ch)) l s h =
      elim (Option-cases (position (some ch) s.listeners)) [
        | inl absent ↦ rw absent h.no_nil
        | inr (i, at) ↦
            rw at (omega (arith, h.no_nil, count-removed none (some ch) i s.listeners at))
      ]

  pub after-IsTidy :
      (r : Request V) (l : List (Request V)) (s : Server V)
      → IsTidy (r ∷ l) s
      → IsTidy l (after r s)
  after-IsTidy r l s h = record {
    once = λ y. omega (arith, h.once y, after-balance y r l s);
    no_nil = after-nil r l s h;
  }

  -- Whether a channel is subscribed after a request.
  abbrev pub on_after : ℕ → Request V → Bool → Bool
  on_after ch (add_listener x) on = if same_channel x (some ch) then true else on
  on_after ch (remove_listener x) on = if same_channel x (some ch) then false else on
  on_after ch (source_value v) on = on

  pub after-count :
      (ch : ℕ) (r : Request V) (l : List (Request V)) (s : Server V) (on : Bool)
      → IsTidy (r ∷ l) s
      → count (some ch) s.listeners ≡ one_if on
      → count (some ch) (after r s).listeners ≡ one_if (on_after ch r on)
  unfolding additions count
  after-count ch (add_listener x) l s on h k =
      ground (arith, h.once ch, count-append (some ch) s.listeners (x ∷ []))
  after-count ch (source_value v) l s on h k = k
  after-count ch (remove_listener none) l s on h k =
      elim (Option-cases (position none s.listeners)) [
        | inl absent ↦ rw absent k
        | inr (i, at) ↦ rw at k
      ]
  after-count ch (remove_listener (some x)) l s on h k =
      elim (Option-cases (position (some x) s.listeners)) [
        | inl absent ↦
            rw absent (ground (arith, k, count_absent (some x) s.listeners absent, ==_iff x ch))
        | inr (i, at) ↦
            rw at (ground (arith, k, h.once ch, count-removed (some ch) (some x) i s.listeners at))
      ]

  abbrev pub after_all : List (Request V) → Server V → Server V
  after_all [] s = s
  after_all (r ∷ l) s = after_all l (after r s)

  pub run_after :
      (l : List (Request V)) (s : Server V) → IsTidy l s → run l s ≡ returns (after_all l s)
  unfolding run
  run_after [] s h = refl
  run_after (r ∷ l) s h = rw (step-after r l s h) (run_after l (after r s) (after-IsTidy r l s h))

  pub after_all-IsTidy :
      (l : List (Request V)) (s : Server V) → IsTidy l s → IsTidy [] (after_all l s)
  after_all-IsTidy [] s h = h
  after_all-IsTidy (r ∷ l) s h = after_all-IsTidy l (after r s) (after-IsTidy r l s h)
