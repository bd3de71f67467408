-- ===== src/Broadcast/Closing.antt =====
-- Every channel that was subscribed is closed, and none twice (pkg/broadcast/broadcast.go).
use torq.Prelude.{
  ℕ, ◌+◌, ◌≤◌, ◌≡◌, refl, ap, Option, none, some, List, [], ◌∷◌, arith, ◌==◌, ==_iff,
}
use torq.Runtime.{returns}
use torq.Broadcast.Serve.{
  Request, Server, close, empty, close_all, End, context_done, source_closed, cut_off, at_end,
  serve,
}
use torq.Broadcast.Counting.{one_if, count, closings, closings_none}
use torq.Broadcast.Tidy.{
  additions, IsTidy, after, after-balance, after_all, run_after, after_all-IsTidy,
}

module _ {ℓ} {V : Type ℓ} where
  close_all-returns :
      (l : List (Option ℕ)) (s : Server V)
      → ((y : ℕ) → count (some y) l + closings y s.closed ≤ 1)
      → count none l ≡ 0
      → (s' : Server V) × (close_all l s ≡ returns s')
        × (s'.sent ≡ s.sent)
        × ((y : ℕ) → closings y s'.closed ≡ count (some y) l + closings y s.closed)
  unfolding close_all close count closings
  close_all-returns [] s once no_nil = (s, refl, refl, λ y. omega arith)
  close_all-returns (none ∷ l) s once no_nil = absurd (omega (arith, no_nil))
  close_all-returns (some ch ∷ l) s once no_nil =
      let self : one_if (ch == ch) ≡ 1 = ap one_if ((==_iff ch ch).1 refl) in
      let fresh = closings_none ch s.closed (omega (arith, once ch, self)) in
      let s1 : Server V = record s { closed = ch ∷ s.closed } in
      let (s', done, same, counts) =
        close_all-returns l s1 (λ y. omega (arith, once y)) (omega (arith, no_nil)) in
      (s', rw fresh done, same, λ y. omega (arith, counts y))

  after_all-balance :
      (y : ℕ) (l : List (Request V)) (s : Server V)
      → count (some y) (after_all l s).listeners + closings y (after_all l s).closed
        ≡ additions (some y) l + count (some y) s.listeners + closings y s.closed
  unfolding additions
  after_all-balance y [] s = omega arith
  after_all-balance y (r ∷ l) s =
      omega (arith, after_all-balance y l (after r s), after-balance y r l s)

  pub start-IsTidy :
      (l : List (Request V))
      → ((y : ℕ) → additions (some y) l ≤ 1)
      → additions none l ≡ 0
      → IsTidy l empty
  unfolding count closings
  start-IsTidy l once no_nil = record {
    once = λ y. omega (arith, once y);
    no_nil = omega (arith, no_nil);
  }

  at_end-same : (e : End V) (s : Server V) → ((at_end e s).closed ≡ s.closed)
  at_end-same context_done s = refl
  at_end-same source_closed s = refl
  at_end-same (cut_off v sent) s = refl

  pub serve-returns :
      (l : List (Request V)) (e : End V)
      → ((y : ℕ) → additions (some y) l ≤ 1)
      → additions none l ≡ 0
      → (s : Server V) × (serve l e ≡ returns s)
        × (s.sent ≡ (at_end e (after_all l empty)).sent)
        × ((y : ℕ) → closings y s.closed ≡ additions (some y) l)
  unfolding serve count closings
  serve-returns l e once no_nil =
      let tidy = start-IsTidy l once no_nil in
      let s = after_all l empty in
      let left : IsTidy [] s = after_all-IsTidy l empty tidy in
      let kept = at_end-same e s in
      let (s', done, same, counts) =
        close_all-returns s.listeners (at_end e s)
          (λ y. omega (arith, left.once y, ap (closings y) kept)) (omega (arith, left.no_nil)) in
      (
        s',
        rw (run_after l empty tidy) done,
        same,
        λ y. omega (arith, counts y, ap (closings y) kept, after_all-balance y l empty),
      )

  -- Where no channel is subscribed twice and none is nil, the loop does not fail, whatever it is asked
  -- to remove and however it ends, and each channel that was subscribed is closed once, every other
  -- one never.
  pub serve-closed :
      (l : List (Request V)) (e : End V)
      → ((y : ℕ) → additions (some y) l ≤ 1)
      → additions none l ≡ 0
      → (s : Server V) × (serve l e ≡ returns s)
        × ((y : ℕ) → closings y s.closed ≡ additions (some y) l)
  serve-closed l e once no_nil =
      let (s, done, same, closed) = serve-returns l e once no_nil in (s, done, closed)
