-- ===== src/ChannelCache/Closing.antt =====
-- Writing and closing a channel, as the clients see it (pkg/commons/managedChannel.go).
use torq.Prelude.{
  ℕ, ◌==◌, ◌≤◌, if◌then◌else◌, ◌≡◌, ◌≢◌, refl, sym, ap, ◌∙◌, inl, inr, true, false, Bool-cases,
  ◌||◌, Option, none, some, [], ◌∷◌, arith, nat_eq,
}
use torq.Prelude.Map.{Map, HasOneEach, lookup, delete, lookup-delete}
use torq.Prelude.Text.{Text, bytes, same_text, same_text_iff, text_eq}
use torq.Runtime.{returns}
use torq.Constants.{cooperative_closed}
use torq.ShortIds.Convert.{create_channel_point}
use torq.ChannelCache.Types.{no_reply, Cache}
use torq.ChannelCache.Process.{
  number_or_zero, is_open, find_key, delete_key_of, put_status, write_status, dispatch, process,
}
use torq.ChannelCache.Clients.{
  set_channel_status, get_active_channel_id_by_short_channel_id,
  get_active_channel_id_by_funding_transaction,
}
use torq.ChannelCache.Names.{IsConsistent}

-- A channel has at most one name in a map.
abbrev pub HasOneName : ℕ → Map Text ℕ → Type 0
HasOneName id m = (s t : Text) → lookup s m ≡ some id → lookup t m ≡ some id → s ≡ t

-- The loop finds a name of the channel where it has one.
find_key-found :
    (id : ℕ) (s : Text) (m : Map Text ℕ)
    → HasOneEach m
    → lookup s m ≡ some id
    → lookup (find_key id m) m ≡ some id
unfolding find_key lookup
find_key-found id s [] one h = cc
find_key-found id s ((k, v) ∷ m) one h = elim (Bool-cases (v == id)) [
  | inl here ↦
      let e : v ≡ id = ground arith in
      let k_is_k = (same_text_iff k k).1 refl in rw (here, k_is_k) (ap some e)
  | inr elsewhere ↦
      let rest : lookup s m ≡ some id = ground (arith, elsewhere, h) in
      let found = find_key-found id s m one.1 rest in
      elim (Bool-cases (same_text k (find_key id m))) [
        | inl same ↦
            let e = (same_text_iff k (find_key id m)).0 same in
            let absent : lookup (find_key id m) m ≡ none = ap (λ x. lookup x m) (sym e) ∙ one.0 in
            cc
        | inr other ↦
            let skip : find_key id ((k, v) ∷ m) ≡ find_key id m = rw elsewhere refl in
            let past : lookup (find_key id m) ((k, v) ∷ m) ≡ some id = rw other found in
            ap (λ x. lookup x ((k, v) ∷ m)) skip ∙ past
      ]
]

-- No name of the channel is left.
delete_key_of-none :
    (id : ℕ) (m : Map Text ℕ) (s : Text)
    → HasOneEach m
    → HasOneName id m
    → lookup [] m ≡ none
    → lookup s (delete_key_of id m) ≢ some id
unfolding delete_key_of
delete_key_of-none id m s one named no_empty h = elim (Bool-cases (same_text (find_key id m) [])) [
  | inl e ↦
      let had : lookup s m ≡ some id = ap (lookup s) (sym (kept e)) ∙ h in
      let key = find_key-found id s m one had in
      let absent : lookup (find_key id m) m ≡ none =
        ap (λ x. lookup x m) ((same_text_iff (find_key id m) []).0 e) ∙ no_empty in
      cc
  | inr e ↦
      let removed : lookup s (delete (find_key id m) m) ≡ some id =
        ap (lookup s) (sym (dropped e)) ∙ h in
      let read = lookup-delete (find_key id m) s m in
      elim (Bool-cases (same_text (find_key id m) s)) [
        | inl same ↦ ground (arith, read, same, removed)
        | inr other ↦
            let had : lookup s m ≡ some id = ground (arith, read, other, removed) in
            let same = named (find_key id m) s (find_key-found id s m one had) had in
            let yes = (same_text_iff (find_key id m) s).1 same in cc
      ]
]
  where
    kept : same_text (find_key id m) [] ≡ true → delete_key_of id m ≡ m
    kept e = rw e refl

    dropped : same_text (find_key id m) [] ≡ false → delete_key_of id m ≡ delete (find_key id m) m
    dropped e = rw e refl

returns-injective : {A : Type 0} {a b : A} → returns a ≡ returns b → a ≡ b
returns-injective h = cc

number_or_zero-eq : (o : Option ℕ) (id : ℕ) → id ≢ 0 → number_or_zero o ≡ id → o ≡ some id
number_or_zero-eq none id n h = ground arith
number_or_zero-eq (some v) id n h = ap some h

-- In a cache whose maps agree and have one entry for each name: after `SetChannelStatus` with a
-- closed status for a channel with at most one active short id and one active channel point, no
-- short id and no channel point leads to the channel among the active ones.
pub closed-not_active :
    (c : Cache) (id status : ℕ) (s hash : Text) (index : ℕ)
    → IsConsistent c
    → id ≢ 0
    → cooperative_closed ≤ status
    → HasOneEach c.short_channel_ids
    → HasOneEach c.channel_points
    → HasOneName id c.short_channel_ids
    → HasOneName id c.channel_points
    → (after : Cache) × (process (set_channel_status id status) c ≡ returns (after, no_reply))
      × (get_active_channel_id_by_short_channel_id s after ≢ returns id)
      × (get_active_channel_id_by_funding_transaction hash index after ≢ returns id)
unfolding process dispatch write_status set_channel_status get_active_channel_id_by_short_channel_id
    get_active_channel_id_by_funding_transaction
closed-not_active c id status s hash index good nz closed one_s one_p name_s name_p =
    let m = set_channel_status id status in
    let after = put_status m c in
    let written : write_status m c ≡ after =
      let not_zero : (id == 0) ≡ false = ground arith in
      ap (λ b. if b then c else after) not_zero in
    let shut : is_open status ≡ false = ground arith in
    let short : after.short_channel_ids ≡ delete_key_of id c.short_channel_ids =
      ap (λ b. if b then c.short_channel_ids else delete_key_of id c.short_channel_ids) shut in
    let points : after.channel_points ≡ delete_key_of id c.channel_points =
      ap (λ b. if b then c.channel_points else delete_key_of id c.channel_points) shut in
    (
      after,
      ap (λ x. returns (x, no_reply)) written,
      λ h. elim (Bool-cases (same_text s [] || same_text s (bytes "0x0x0"))) [
        | inl no_id ↦
            let zero : returns 0 ≡ returns id =
              sym (
                ap
                  (λ b.
                    if b
                    then returns 0
                    else returns (number_or_zero (lookup s after.short_channel_ids)))
                  no_id)
              ∙ h in
            nz (returns-injective (sym zero))
        | inr named ↦
            let read : returns (number_or_zero (lookup s after.short_channel_ids)) ≡ returns id =
              sym (
                ap
                  (λ b.
                    if b
                    then returns 0
                    else returns (number_or_zero (lookup s after.short_channel_ids)))
                  named)
              ∙ h in
            let found =
              number_or_zero-eq (lookup s after.short_channel_ids) id nz (returns-injective read) in
            delete_key_of-none id c.short_channel_ids s one_s name_s good.3
              (ap (lookup s) (sym short) ∙ found)
      ],
      λ h.
          let p = create_channel_point hash index in
          let found =
            number_or_zero-eq (lookup p after.channel_points) id nz (returns-injective h) in
          delete_key_of-none id c.channel_points p one_p name_p good.4
            (ap (lookup p) (sym points) ∙ found),
    )
