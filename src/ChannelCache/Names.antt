-- ===== src/ChannelCache/Names.antt =====
-- The names of channels in two maps, one of which has all names of the other
-- (pkg/commons/managedChannel.go).
use torq.Prelude.{
  ℕ, if◌then◌else◌, ◌≡◌, refl, inl, inr, Bool, true, false, Bool-cases, Option, none, some, [], ◌∷◌,
  ◌++◌, arith, nat_eq,
}
use torq.Prelude.Map.{Map, lookup, insert, lookup-insert, lookup-delete}
use torq.Prelude.Text.{Text, same_text, text_eq}
use torq.Constants.{ChannelStatus}
use torq.ShortIds.Text.{format_int}
use torq.ShortIds.Convert.{create_channel_point}
use torq.ChannelCache.Types.{Message, Settings, Cache}
use torq.ChannelCache.Process.{channel_point_of, put_short_id, find_key, delete_key_of}

abbrev pub status_of : Option Settings → Option ChannelStatus
status_of none = none
status_of (some s) = some s.status

-- Every name of the first map is one of the second.
abbrev pub NamesIn : Map Text ℕ → Map Text ℕ → Type 0
NamesIn a b = (s : Text) → lookup s b ≡ none → lookup s a ≡ none

-- The status map has the status of the settings, every active name is known, and no active name is
-- empty.
abbrev pub IsConsistent : Cache → Type 0
IsConsistent c =
    ((id : ℕ) → lookup id c.statuses ≡ status_of (lookup id c.settings))
    × NamesIn c.short_channel_ids c.all_short_channel_ids
    × NamesIn c.channel_points c.all_channel_points
    × (lookup [] c.short_channel_ids ≡ none)
    × (lookup [] c.channel_points ≡ none)

-- A channel point has a colon, so it is not empty.
pub longer_not_empty : (s t : Text) (c : ℕ) → same_text (s ++ c ∷ t) [] ≡ false
unfolding same_text
longer_not_empty [] t c = refl
longer_not_empty (x ∷ s) t c = refl

pub channel_point-not_empty : (m : Message) → same_text (channel_point_of m) [] ≡ false
unfolding create_channel_point
channel_point-not_empty m =
    longer_not_empty m.funding_transaction_hash (format_int m.funding_output_index) 58

pub insert-NamesIn :
    (s : Text) (id : ℕ) (a b : Map Text ℕ) → NamesIn a b → NamesIn (insert s id a) (insert s id b)
insert-NamesIn s id a b h t missing =
    let had = h t in ground (arith, lookup-insert s t id a, lookup-insert s t id b)

pub insert-second : (s : Text) (id : ℕ) (a b : Map Text ℕ) → NamesIn a b → NamesIn a (insert s id b)
insert-second s id a b h t missing = let had = h t in ground (arith, lookup-insert s t id b)

pub delete-names :
    (id : ℕ) (a : Map Text ℕ) (s : Text) → lookup s a ≡ none → lookup s (delete_key_of id a) ≡ none
unfolding delete_key_of
delete-names id a s missing = elim (Bool-cases (same_text (find_key id a) [])) [
  | inl none_found ↦ rw none_found missing
  | inr found ↦ rw found (ground (arith, lookup-delete (find_key id a) s a, missing))
]

pub statuses-insert :
    (id : ℕ) (s : Settings) (statuses : Map ℕ ChannelStatus) (settings : Map ℕ Settings)
    → ((k : ℕ) → lookup k statuses ≡ status_of (lookup k settings))
    → (k : ℕ) → lookup k (insert id s.status statuses) ≡ status_of (lookup k (insert id s settings))
statuses-insert id s statuses settings h k =
    let had = h k in
    ground (arith, lookup-insert id k s.status statuses, lookup-insert id k s settings)

pub choose-NamesIn :
    (b : Bool) (a a' k : Map Text ℕ) → NamesIn a k → NamesIn a' k → NamesIn (if b then a else a') k
choose-NamesIn true a a' k h g = h
choose-NamesIn false a a' k h g = g

pub both-NamesIn :
    (b : Bool) (s : Text) (id : ℕ) (a k : Map Text ℕ)
    → NamesIn a k
    → NamesIn (if b then a else insert s id a) (if b then k else insert s id k)
both-NamesIn true s id a k h = h
both-NamesIn false s id a k h = insert-NamesIn s id a k h

pub second-NamesIn :
    (b : Bool) (s : Text) (id : ℕ) (a k : Map Text ℕ)
    → NamesIn a k
    → NamesIn a (if b then k else insert s id k)
second-NamesIn true s id a k h = h
second-NamesIn false s id a k h = insert-second s id a k h

pub choose-none :
    (b : Bool) (a a' : Map Text ℕ)
    → lookup [] a ≡ none
    → lookup [] a' ≡ none
    → lookup [] (if b then a else a') ≡ none
choose-none true a a' h g = h
choose-none false a a' h g = g

pub insert-none :
    (s : Text) (id : ℕ) (a : Map Text ℕ)
    → same_text s [] ≡ false
    → lookup [] a ≡ none
    → lookup [] (insert s id a) ≡ none
insert-none s id a h g = ground (arith, lookup-insert s [] id a)

pub put_short-none :
    (m : Message) (a : Map Text ℕ) → lookup [] a ≡ none → lookup [] (put_short_id m a) ≡ none
put_short-none m a h = elim (Bool-cases (same_text m.short_channel_id [])) [
  | inl e ↦ rw e h
  | inr e ↦ rw e (insert-none m.short_channel_id m.channel_id a e h)
]
