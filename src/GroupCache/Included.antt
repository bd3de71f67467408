-- ===== src/GroupCache/Included.antt =====
-- What a read of the groups of a channel gives, by what it includes
-- (pkg/commons/managedChannelGroup.go).
use torq.Prelude.{
  ℕ, ◌≡◌, refl, ◌∙◌, sym, ◌≢◌, inl, inr, Bool, true, false, Bool-cases, ◌&&◌, ◌||◌, some, List, [],
  ◌∷◌, ◌++◌, All, select, any, subst, arith, ◌==◌, nat_eq, if◌then◌else◌,
}
use mathlib.Core.List.{append-nil, append_assoc, Sublistᴰ}
use mathlib.Core.List.Sublistᴰ.{slnil, cons, cons-cons}
use torq.Prelude.Map.{lookup, insert, lookup-insert}
use torq.Runtime.{returns}
use torq.GroupCache.Process.{
  ChannelGroup, Include, categories_only, distinct_regular_and_tag_categories,
  all_regular_and_tag_categories, tags_only, Settings, no_reply, Cache, has_tag, has_category,
  same_pointer, add_all_tagged, regular_groups, included, write_groups, process,
  get_channel_groups_by_channel_id, set_channel_groups_by_channel_id,
}

abbrev pub tagged_groups : List ChannelGroup → List ChannelGroup
tagged_groups l = select (λ g. has_category g && has_tag g) l

-- The loop without the test.
add_all_tagged-false :
    (result l : List ChannelGroup) → add_all_tagged false result l ≡ result ++ tagged_groups l
unfolding add_all_tagged select
add_all_tagged-false result [] = sym (append-nil result)
add_all_tagged-false result (g ∷ l) = elim (Bool-cases (has_category g && has_tag g)) [
  | inl both ↦
      rw both (
        add_all_tagged-false (result ++ (g ∷ [])) l
        ∙ append_assoc result (g ∷ []) (tagged_groups l))
  | inr other ↦ rw other (add_all_tagged-false result l)
]

-- Some group of the list has the pointer to the category of `g`.
abbrev pub has_pointer_of : List ChannelGroup → ChannelGroup → Bool
has_pointer_of l g = any (λ e. same_pointer e.category_id g.category_id) l

-- No two groups of the list share the pointer to their category.
abbrev pub AreApart : List ChannelGroup → Type 0
AreApart [] = Unit
AreApart (g ∷ l) = All (λ e. same_pointer g.category_id e.category_id ≡ false) l × AreApart l

-- The groups that the test of the loop keeps, where those of `seen` are in the result.
fresh : List ChannelGroup → List ChannelGroup → List ChannelGroup
fresh seen [] = []
fresh seen (g ∷ l) =
    let skipped = fresh seen l in
    let kept = fresh (seen ++ (g ∷ [])) l in if has_pointer_of seen g then skipped else g ∷ kept

add_all_tagged-true :
    (result l : List ChannelGroup)
    → add_all_tagged true result l ≡ result ++ fresh result (tagged_groups l)
unfolding add_all_tagged select fresh
add_all_tagged-true result [] = sym (append-nil result)
add_all_tagged-true result (g ∷ l) = elim (Bool-cases (has_category g && has_tag g)) [
  | inr other ↦ rw other (add_all_tagged-true result l)
  | inl both ↦ elim (Bool-cases (has_pointer_of result g)) [
    | inl known ↦ rw (both, known) (add_all_tagged-true result l)
    | inr new ↦
        rw (both, new)
          (add_all_tagged-true (result ++ (g ∷ [])) l
            ∙ append_assoc result (g ∷ []) (fresh (result ++ (g ∷ [])) (tagged_groups l)))
  ]
]

any-append :
    (p : ChannelGroup → Bool) (l m : List ChannelGroup) → any p (l ++ m) ≡ (any p l || any p m)
unfolding any
any-append p [] m = refl
any-append p (g ∷ l) m = rw (any-append p l m) (ground arith)

-- What the test keeps is in the list, in its order.
fresh-Sublist : (seen l : List ChannelGroup) → Sublistᴰ (fresh seen l) l
unfolding fresh
fresh-Sublist seen [] = slnil
fresh-Sublist seen (g ∷ l) = elim (Bool-cases (has_pointer_of seen g)) [
  | inl known ↦ rw known (cons (fresh-Sublist seen l))
  | inr new ↦ rw new (cons-cons refl (fresh-Sublist (seen ++ (g ∷ [])) l))
]

-- A pointer that is not in a longer list.
apart-append :
    (seen : List ChannelGroup) (g e : ChannelGroup)
    → has_pointer_of (seen ++ (g ∷ [])) e ≡ false
    → (has_pointer_of seen e ≡ false) × (same_pointer g.category_id e.category_id ≡ false)
unfolding any
apart-append seen g e h =
    let split = any-append (λ d. same_pointer d.category_id e.category_id) seen (g ∷ []) in
    ground (arith, split, h)

All-map {ℓ κ μ} :
    {A : Type ℓ} (P : A → Type κ) (Q : A → Type μ) (l : List A)
    → ((a : A) → P a → Q a)
    → All P l
    → All Q l
All-map P Q [] f h = tt
All-map P Q (a ∷ l) f h = (f a h.0, All-map P Q l f h.1)

-- A group that is kept has a pointer that was not seen.
fresh-apart : (seen l : List ChannelGroup) → All (λ g. has_pointer_of seen g ≡ false) (fresh seen l)
unfolding fresh
fresh-apart seen [] = tt
fresh-apart seen (g ∷ l) = elim (Bool-cases (has_pointer_of seen g)) [
  | inl known ↦ rw known (fresh-apart seen l)
  | inr new ↦
      rw new
        (new, All-map _ _ _ (λ e h. (apart-append seen g e h).0) (fresh-apart (seen ++ (g ∷ [])) l))
]

fresh-AreApart : (seen l : List ChannelGroup) → AreApart (fresh seen l)
unfolding fresh
fresh-AreApart seen [] = tt
fresh-AreApart seen (g ∷ l) = elim (Bool-cases (has_pointer_of seen g)) [
  | inl known ↦ rw known (fresh-AreApart seen l)
  | inr new ↦ rw new (
    All-map _ _ _ (λ e h. (apart-append seen g e h).1) (fresh-apart (seen ++ (g ∷ [])) l),
    fresh-AreApart (seen ++ (g ∷ [])) l,
  )
]

same_pointer_refl :
    (g : ChannelGroup) → has_category g ≡ true → same_pointer g.category_id g.category_id ≡ true
same_pointer_refl g h = ground arith

-- Every group shares its pointer with one that is kept or was there.
fresh-covers :
    (seen l : List ChannelGroup)
    → All (λ g. has_category g ≡ true) l
    → All (λ g. has_pointer_of (seen ++ fresh seen l) g ≡ true) l
unfolding fresh any
fresh-covers seen [] h = tt
fresh-covers seen (g ∷ l) h =
    let both : (k : List ChannelGroup)
        → has_pointer_of (seen ++ k) g ≡ (has_pointer_of seen g || has_pointer_of k g) =
      any-append (λ e. same_pointer e.category_id g.category_id) seen in
    let Covers =
      λ (k : List ChannelGroup). All (λ e. has_pointer_of (seen ++ k) e ≡ true) (g ∷ l) in
    elim (Bool-cases (has_pointer_of seen g)) [
      | inl known ↦
          let same : fresh seen (g ∷ l) ≡ fresh seen l = rw known refl in
          subst Covers (sym same) (both (fresh seen l) ∙ rw known refl, fresh-covers seen l h.1)
      | inr new ↦
          let k : List ChannelGroup = fresh (seen ++ (g ∷ [])) l in
          let same : fresh seen (g ∷ l) ≡ g ∷ k = rw new refl in
          subst Covers (sym same) (
            both (g ∷ k) ∙ rw (new, same_pointer_refl g h.0) refl,
            subst (λ m. All (λ e. has_pointer_of m e ≡ true) l) (append_assoc seen (g ∷ []) k)
                (fresh-covers (seen ++ (g ∷ [])) l h.1),
          )
    ]

tagged_groups-has_category :
    (l : List ChannelGroup) → All (λ g. has_category g ≡ true) (tagged_groups l)
unfolding select
tagged_groups-has_category [] = tt
tagged_groups-has_category (g ∷ l) = elim (Bool-cases (has_category g && has_tag g)) [
  | inl both ↦
      let has : has_category g ≡ true = ground arith in rw both (has, tagged_groups-has_category l)
  | inr other ↦ rw other (tagged_groups-has_category l)
]

-- The tagged groups that a distinct read adds: some of them, in order, no two with one pointer to
-- their category and none with the pointer of a regular group, such that each tagged group shares its
-- pointer with one that is read.
pub record AreDistinct (l d : List ChannelGroup) : Type 0 where
  pub chosen : Sublistᴰ d (tagged_groups l)
  pub apart : All (λ g. has_pointer_of (regular_groups l) g ≡ false) d
  pub pairwise : AreApart d
  pub covers : All (λ g. has_pointer_of (regular_groups l ++ d) g ≡ true) (tagged_groups l)

fresh-AreDistinct :
    (l : List ChannelGroup) → AreDistinct l (fresh (regular_groups l) (tagged_groups l))
fresh-AreDistinct l = record {
  chosen = fresh-Sublist (regular_groups l) (tagged_groups l);
  apart = fresh-apart (regular_groups l) (tagged_groups l);
  pairwise = fresh-AreApart (regular_groups l) (tagged_groups l);
  covers = fresh-covers (regular_groups l) (tagged_groups l) (tagged_groups-has_category l);
}

-- What the cache answers with for a channel.
abbrev pub Answers : ℕ → Include → Cache → List ChannelGroup → Type 0
Answers ch inclusion c l =
    get_channel_groups_by_channel_id ch inclusion c
    ≡ returns (some (record { channel_id = ch; channel_groups = l }))

-- The groups that are written for a channel are read back by what a read includes: those with a tag;
-- those with a category and no tag; for both kinds of categories, these followed by all groups with a
-- category and a tag; and for the distinct ones, these followed by a choice of the tagged groups, in
-- order. In the choice no two groups share the pointer to their category, none has the pointer of a
-- group without a tag, and each tagged group left out shares its pointer with a group that is read.
-- Groups with the same category behind different pointers are all read.
pub set_channel_groups-read_back :
    (ch : ℕ) (l : List ChannelGroup) (c : Cache)
    → ch ≢ 0
    → (c' : Cache) × (process (set_channel_groups_by_channel_id ch l) c ≡ returns (c', no_reply))
      × Answers ch tags_only c' (select has_tag l)
      × Answers ch categories_only c' (regular_groups l)
      × Answers ch all_regular_and_tag_categories c' (regular_groups l ++ tagged_groups l)
      × ((d : List ChannelGroup) × Answers ch distinct_regular_and_tag_categories c'
            (regular_groups l ++ d)
          × AreDistinct l d)
unfolding process set_channel_groups_by_channel_id write_groups get_channel_groups_by_channel_id
    included
set_channel_groups-read_back ch l c nz =
    let given : (ch == 0) ≡ false = ground arith in
    let s : Settings = record { channel_id = ch; channel_groups = l } in
    let there : lookup ch (insert ch s c) ≡ some s = ground (arith, lookup-insert ch ch s c) in
    let all = add_all_tagged-false (regular_groups l) l in
    let distinct = add_all_tagged-true (regular_groups l) l in
    (
      insert ch s c,
      rw given,
      rw there,
      rw there,
      rw (there, all),
      (fresh (regular_groups l) (tagged_groups l), rw (there, distinct), fresh-AreDistinct l),
    )
