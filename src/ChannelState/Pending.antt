-- ===== src/ChannelState/Pending.antt =====
-- The pending HTLCs of one channel: their indexes stay distinct, and two events undo one another.
use torq.Prelude.{
  ℕ, ◌/◌, ◌<◌, ◌≡◌, refl, Bool, true, false, ◌||◌, List, [], ◌∷◌, ◌++◌, arith, ◌==◌, ◌!=◌, nat_eq,
  Bool-cases, inl, inr, ◌∙◌, if◌then◌else◌,
}
use torq.Words.{word, add64, sub64-add64, add64-sub64}
use torq.ChannelState.Types.{Htlc, Settings}
use torq.ChannelState.Htlcs.{
  is_pending, without_htlc, new_htlc, toggle_htlc, apply_incoming, apply_outgoing,
}

-- No two pending HTLCs have the same index.
abbrev pub IsDistinct : List Htlc → Type 0
IsDistinct [] = Unit {0}
IsDistinct (h ∷ l) = (is_pending h.htlc_index l ≡ false) × IsDistinct l

pending-append :
    (i : ℕ) (l : List Htlc) (h : Htlc)
    → is_pending i (l ++ h ∷ []) ≡ (is_pending i l || h.htlc_index == i)
unfolding is_pending
pending-append i [] h = ground arith
pending-append i (g ∷ l) h = ground (arith, pending-append i l h)

pending-without :
    (i k : ℕ) (l : List Htlc)
    → is_pending i (without_htlc k l) ≡ (if i == k then false else is_pending i l)
unfolding is_pending without_htlc
pending-without i k [] = ground arith
pending-without i k (g ∷ l) = ground (arith, pending-without i k l)

without_absent : (k : ℕ) (l : List Htlc) → is_pending k l ≡ false → without_htlc k l ≡ l
unfolding is_pending without_htlc
without_absent k [] h = refl
without_absent k (g ∷ l) h = ground (arith, without_absent k l)

without-append :
    (k : ℕ) (l : List Htlc) (h : Htlc)
    → h.htlc_index ≡ k
    → without_htlc k (l ++ h ∷ []) ≡ without_htlc k l
unfolding without_htlc
without-append k [] h e = ground arith
without-append k (g ∷ l) h e = ground (arith, without-append k l h e)

IsDistinct-without : (k : ℕ) (l : List Htlc) → IsDistinct l → IsDistinct (without_htlc k l)
unfolding without_htlc
IsDistinct-without k [] d = d
IsDistinct-without k (g ∷ l) d = elim (Bool-cases (g.htlc_index != k)) [
  | inr gone ↦ rw gone (IsDistinct-without k l d.1)
  | inl kept ↦
      rw kept (ground (arith, pending-without g.htlc_index k l), IsDistinct-without k l d.1)
]

IsDistinct-append :
    (l : List Htlc) (h : Htlc)
    → is_pending h.htlc_index l ≡ false
    → IsDistinct l
    → IsDistinct (l ++ h ∷ [])
unfolding is_pending
IsDistinct-append [] h p d = (refl, tt)
IsDistinct-append (g ∷ l) h p d =
    (ground (arith, pending-append g.htlc_index l h), IsDistinct-append l h (ground arith) d.1)

toggle_fresh :
    (incoming : Bool) (amount index : ℕ) (l : List Htlc)
    → is_pending index l ≡ false
    → toggle_htlc incoming amount index l ≡ l ++ new_htlc incoming amount index ∷ []
unfolding toggle_htlc
toggle_fresh incoming amount index l h = rw (h, without_absent index l h)

toggle_pending :
    (incoming : Bool) (amount index : ℕ) (l : List Htlc)
    → is_pending index l ≡ true
    → toggle_htlc incoming amount index l ≡ without_htlc index l
unfolding toggle_htlc
toggle_pending incoming amount index l h = rw h

pub IsDistinct-toggle :
    (incoming : Bool) (amount index : ℕ) (l : List Htlc)
    → IsDistinct l
    → IsDistinct (toggle_htlc incoming amount index l)
IsDistinct-toggle incoming amount index l d = elim (Bool-cases (is_pending index l)) [
  | inl old ↦ rw (toggle_pending incoming amount index l old) (IsDistinct-without index l d)
  | inr fresh ↦
      rw (toggle_fresh incoming amount index l fresh)
        (IsDistinct-append l (new_htlc incoming amount index) fresh d)
]

-- A fresh HTLC is pending after its first event, and its second event drops it again.
pub toggle_twice :
    (incoming again : Bool) (amount amount' index : ℕ) (l : List Htlc)
    → is_pending index l ≡ false
    → (is_pending index (toggle_htlc incoming amount index l) ≡ true)
      × (toggle_htlc again amount' index (toggle_htlc incoming amount index l) ≡ l)
toggle_twice incoming again amount amount' index l h =
    let new : Htlc = new_htlc incoming amount index in
    let there : is_pending index (l ++ new ∷ []) ≡ true =
      ground (arith, pending-append index l new) in
    rw (toggle_fresh incoming amount index l h) (
      there,
      rw (toggle_pending again amount' index (l ++ new ∷ []) there)
          (without-append index l new refl ∙ without_absent index l h),
    )

-- The state of a channel after two incoming events for an HTLC that was not pending.
pub apply_incoming_twice :
    (amt index : ℕ) (s : Settings)
    → is_pending index s.pending_htlcs ≡ false
    → s.unsettled_balance < word
    → apply_incoming amt index (apply_incoming amt index s) ≡ s
unfolding apply_incoming
apply_incoming_twice amt index s h small =
    let both = toggle_twice true true (amt / 1000) (amt / 1000) index s.pending_htlcs h in
    ground (arith, sub64-add64 s.unsettled_balance (amt / 1000))

pub apply_outgoing_twice :
    (incoming_amt amt index : ℕ) (s : Settings)
    → is_pending index s.pending_htlcs ≡ false
    → s.unsettled_balance < word
    → apply_outgoing incoming_amt amt index (apply_outgoing incoming_amt amt index s) ≡ s
unfolding apply_outgoing
apply_outgoing_twice incoming_amt amt index s h small =
    let both = toggle_twice false false (amt / 1000) (amt / 1000) index s.pending_htlcs h in
    ground (arith, add64-sub64 s.unsettled_balance (incoming_amt / 1000))

pub pending-apply_incoming :
    (amt index : ℕ) (s : Settings)
    → is_pending index s.pending_htlcs ≡ false
    → is_pending index (apply_incoming amt index s).pending_htlcs ≡ true
unfolding apply_incoming
pending-apply_incoming amt index s h =
    (toggle_twice true true (amt / 1000) (amt / 1000) index s.pending_htlcs h).0

pub unsettled-apply_incoming :
    (amt index : ℕ) (s : Settings)
    → is_pending index s.pending_htlcs ≡ false
    → (apply_incoming amt index s).unsettled_balance ≡ add64 s.unsettled_balance (amt / 1000)
unfolding apply_incoming
unsettled-apply_incoming amt index s h = ground arith
