-- ===== src/Services/Status.antt =====
-- What the statuses of a service and of its streams come to (pkg/commons/services.go, `GetStatus`,
-- `GetActiveNodeIds`, `GetChannelBalanceCacheStreamStatus`).
use mathlib.Core.List.Memᴰ.{head, tail}
use torq.Prelude.{
  ℕ, ◌≡◌, refl, ◌≢◌, ◌↔◌, inl, inr, Bool, true, false, Bool-cases, none, some, Option-cases, [],
  ◌∷◌, Memᴰ, arith, All, subst, sym, ap, ◌∙◌, nat_eq, ◌==◌, if◌then◌else◌,
}
use torq.Prelude.Map.{Map, HasOneEach, lookup, lookup-insert, values}
use torq.Constants.{
  is_lnd_service, Status, inactive, active, pending, deleted, initializing, is_active,
  SubscriptionStream,
}
use torq.Services.Types.{stream_eq, Services}
use torq.Services.Operations.{init_service_maps, with_entry, streams_or_empty}
use torq.Services.Reads.{
  merge_statuses, streams_of, active_status, status_guard, get_status, all_active, is_listed,
  active_ids, get_active_node_ids,
}
use torq.Services.Merge.{merge_active_iff, IsActiveOr, merge-active, merge-one, merge-two}

pub streams-with_entry :
    (n k : ℕ) (m : Map ℕ (Map SubscriptionStream Status))
    → streams_or_empty (lookup n (with_entry k m)) ≡ streams_or_empty (lookup n m)
unfolding with_entry
streams-with_entry n k m = elim (Option-cases (lookup k m)) [
  | inl missing ↦ ground (arith, missing, lookup-insert k n [] m)
  | inr (v, found) ↦ rw found refl
]

-- The answer for a service that is there and active.
get_status-active :
    (rs : Services) (n : ℕ)
    → is_lnd_service rs.service_type ≡ true
    → lookup n rs.service_status ≡ some active
    → (get_status n rs).1 ≡ merge_statuses none (values (streams_of n rs))
unfolding get_status
get_status-active rs n lnd found =
    rw (found, lnd)
      (ap (λ m. merge_statuses none (values m)) (streams-with_entry n n rs.stream_status))

-- What `GetStatus` answers for an LND service that is active: Active where all streams are, the
-- status of the others where these are all in one status, and Pending where two of them differ.
pub get_status-merged :
    (rs : Services) (n : ℕ)
    → is_lnd_service rs.service_type ≡ true
    → lookup n rs.service_status ≡ some active
    → (All (λ t. t ≡ active) (values (streams_of n rs)) → (get_status n rs).1 ≡ active)
      × ((s : Status)
          → Memᴰ s (values (streams_of n rs))
          → s ≢ active
          → All (IsActiveOr s) (values (streams_of n rs))
          → (get_status n rs).1 ≡ s)
      × ((s t : Status)
          → Memᴰ s (values (streams_of n rs))
          → Memᴰ t (values (streams_of n rs))
          → s ≢ active
          → t ≢ active
          → s ≢ t
          → (get_status n rs).1 ≡ pending)
get_status-merged rs n lnd found =
    let e = get_status-active rs n lnd found in
    (
      λ h. e ∙ merge-active _ h,
      λ s at ns h. e ∙ merge-one s _ at ns h,
      λ s t at_s at_t ns nt d. e ∙ merge-two s t _ at_s at_t ns nt d,
    )

guard_iff :
    (s t : Status) (b : Bool)
    → (t ≡ active) ↔ (b ≡ true)
    → ((if is_active s then b else false) ≡ true) ↔ (status_guard (some s) t ≡ active)
guard_iff active t b h = (h.1, h.0)
guard_iff inactive t b h = (λ e. cc, λ e. cc)
guard_iff pending t b h = (λ e. cc, λ e. cc)
guard_iff deleted t b h = (λ e. cc, λ e. cc)
guard_iff initializing t b h = (λ e. cc, λ e. cc)

choice_iff :
    (c : Bool) (t : Status) (b : Bool)
    → (t ≡ active) ↔ (b ≡ true)
    → ((if c then t else active) ≡ active) ↔ ((if c then b else true) ≡ true)
choice_iff true t b h = h
choice_iff false t b h = (λ e. refl, λ e. refl)

-- A node is listed with its status just if `GetStatus` answers Active.
listed_iff :
    (rs : Services) (n : ℕ) (s : Status)
    → lookup n rs.service_status ≡ some s
    → (is_listed n s rs ≡ true) ↔ ((get_status n rs).1 ≡ active)
unfolding get_status
listed_iff rs n s found =
    let merged = merge_statuses none (values (streams_of n (init_service_maps n rs))) in
    let all = all_active (values (streams_of n rs)) in
    let same = ap (λ m. merge_statuses none (values m)) (streams-with_entry n n rs.stream_status) in
    let inner : (merged ≡ active) ↔ (all ≡ true) =
      subst (λ u. (u ≡ active) ↔ (all ≡ true)) (sym same)
        (merge_active_iff (values (streams_of n rs))) in
    subst
      (λ o.
        (is_listed n s rs ≡ true)
        ↔ (status_guard o (active_status n (init_service_maps n rs)) ≡ active))
      (sym found) (guard_iff s _ _ (choice_iff (is_lnd_service rs.service_type) merged all inner))

lookup-head : {V : Type 0} (n k : ℕ) (v : V) (m : Map ℕ V) → k ≡ n → lookup n ((k, v) ∷ m) ≡ some v
unfolding lookup
lookup-head n k v m e = ground arith

lookup-tail :
    {V : Type 0} (n k : ℕ) (v : V) (m : Map ℕ V)
    → HasOneEach ((k, v) ∷ m)
    → (s : V) → lookup n m ≡ some s
    → lookup n ((k, v) ∷ m) ≡ some s
unfolding lookup
lookup-tail n k v m one s found = elim (Bool-cases (k == n)) [
  | inl same ↦ let e : k ≡ n = ground arith in cc
  | inr other ↦ rw other found
]

abbrev IsListedIn : Services → ℕ → Map ℕ Status → Type 0
IsListedIn rs n m = (s : Status) × (lookup n m ≡ some s) × (is_listed n s rs ≡ true)

-- What the loop lists.
active_ids_sound :
    (rs : Services) (n : ℕ) (m : Map ℕ Status)
    → HasOneEach m
    → Memᴰ n (active_ids rs m)
    → IsListedIn rs n m
unfolding active_ids
active_ids_sound rs n [] one at = elim at [ ]
active_ids_sound rs n ((k, t) ∷ m) one at = elim (Bool-cases (is_listed k t rs)) [
  | inl listed ↦
      let e : active_ids rs ((k, t) ∷ m) ≡ k ∷ active_ids rs m = rw listed refl in
      elim (subst (Memᴰ n) e at) [
        | head h ↦ here h listed
        | tail r ↦ there (active_ids_sound rs n m one.1 r)
      ]
  | inr unlisted ↦
      let e : active_ids rs ((k, t) ∷ m) ≡ active_ids rs m = rw unlisted refl in
      there (active_ids_sound rs n m one.1 (subst (Memᴰ n) e at))
]
  where
    here : n ≡ k → is_listed k t rs ≡ true → IsListedIn rs n ((k, t) ∷ m)
    here h listed =
        (t, lookup-head n k t m (sym h), subst (λ i. is_listed i t rs ≡ true) (sym h) listed)

    there : IsListedIn rs n m → IsListedIn rs n ((k, t) ∷ m)
    there r = (r.0, lookup-tail n k t m one r.0 r.1, r.2)

active_ids_complete :
    (rs : Services) (n : ℕ) (m : Map ℕ Status) (s : Status)
    → lookup n m ≡ some s
    → is_listed n s rs ≡ true
    → Memᴰ n (active_ids rs m)
unfolding active_ids lookup
active_ids_complete rs n [] s found listed = cc
active_ids_complete rs n ((k, t) ∷ m) s found listed = elim (Bool-cases (k == n)) [
  | inl same ↦
      let e : k ≡ n = ground arith in
      let v : t ≡ s = ground arith in
      let here : is_listed k t rs ≡ true =
        ap (λ i. is_listed i t rs) e ∙ ap (λ u. is_listed n u rs) v ∙ listed in
      rw here (head (sym e))
  | inr other ↦
      let rest : lookup n m ≡ some s = ground arith in
      let r = active_ids_complete rs n m s rest listed in
      elim (Bool-cases (is_listed k t rs)) [ inl a ↦ rw a (tail r) | inr b ↦ rw b r ]
]

-- `GetActiveNodeIds` lists a node just if `GetStatus` answers Active for it.
pub get_active_node_ids-get_status :
    (rs : Services) (n : ℕ)
    → HasOneEach rs.service_status
    → ((Memᴰ n (get_active_node_ids rs) → (get_status n rs).1 ≡ active)
        × ((get_status n rs).1 ≡ active → Memᴰ n (get_active_node_ids rs)))
unfolding get_status
get_active_node_ids-get_status rs n one = (forward, backward)
  where
    forward : Memᴰ n (active_ids rs rs.service_status) → (get_status n rs).1 ≡ active
    forward at =
        let r = active_ids_sound rs n rs.service_status one at in (listed_iff rs n r.0 r.1).0 r.2

    backward : (get_status n rs).1 ≡ active → Memᴰ n (active_ids rs rs.service_status)
    backward h = elim (Option-cases (lookup n rs.service_status)) [
      | inl missing ↦
          let e : (get_status n rs).1 ≡ inactive =
            ap (λ o. status_guard o (active_status n (init_service_maps n rs))) missing in
          cc
      | inr (s, found) ↦
          active_ids_complete rs n rs.service_status s found ((listed_iff rs n s found).1 h)
    ]
