-- ===== src/GroupCache/Process.antt =====
-- The cache of the groups of each channel (pkg/commons/managedChannelGroup.go).
use torq.Prelude.{
  ℕ, Bool, true, false, not, ◌&&◌, Option, none, some, List, [], ◌∷◌, ◌++◌, String, select, any,
  ◌==◌, nat_eq, if◌then◌else◌,
}
use torq.Prelude.Map.{Map, lookup, insert}
use torq.Runtime.{Outcome, returns, blocks, ◌>>=◌}

-- A pointer that is compared: its address and what it points to.
pub record Pointer : Type 0 where
  pub address : ℕ
  pub value : ℕ

-- `ChannelGroup`. The code compares `CategoryId` with another one, and `TagId` with nil alone.
pub record ChannelGroup : Type 0 where
  pub tag_id : Option ℕ
  pub tag_name : Option String
  pub tag_style : Option String
  pub category_id : Option Pointer
  pub category_name : Option String
  pub category_style : Option String

pub data OperationType : Type 0 where
  read_channelgroups write_channelgroups : OperationType

pub data Include : Type 0 where
  categories_only distinct_regular_and_tag_categories : Include
  all_regular_and_tag_categories tags_only : Include

-- `ManagedChannelGroup`, the message.
pub record Message : Type 0 where
  pub operation : OperationType
  pub channel_id : ℕ
  pub inclusion : Include
  pub channel_groups : List ChannelGroup
  pub out : Bool

-- `ManagedChannelGroupSettings`.
pub record Settings : Type 0 where
  pub channel_id : ℕ
  pub channel_groups : List ChannelGroup

-- A nil reply is `none`.
pub data Reply : Type 0 where
  no_reply : Reply
  groups : Option Settings → Reply

abbrev pub Cache : Type 0
Cache = Map ℕ Settings

abbrev pub is_some {ℓ} : {A : Type ℓ} → Option A → Bool
is_some none = false
is_some (some a) = true

abbrev pub has_tag : ChannelGroup → Bool
has_tag g = is_some g.tag_id

abbrev pub has_category : ChannelGroup → Bool
has_category g = is_some g.category_id

-- `a == b` on pointers.
abbrev pub same_pointer : Option Pointer → Option Pointer → Bool
same_pointer none none = true
same_pointer (some p) (some q) = p.address == q.address
same_pointer _ _ = false

abbrev pub is_distinct : Include → Bool
is_distinct distinct_regular_and_tag_categories = true
is_distinct _ = false

-- One turn of the loop `group`: `continue group` where the result has the category pointer.
abbrev pub add_tagged : Bool → List ChannelGroup → ChannelGroup → List ChannelGroup
add_tagged distinct result g =
    if has_category g && has_tag g
    then (if distinct && any (λ e. same_pointer e.category_id g.category_id) result
        then result
        else result ++ (g ∷ []))
    else result

unfoldable pub add_all_tagged : Bool → List ChannelGroup → List ChannelGroup → List ChannelGroup
add_all_tagged distinct result [] = result
add_all_tagged distinct result (g ∷ l) = add_all_tagged distinct (add_tagged distinct result g) l

abbrev pub regular_groups : List ChannelGroup → List ChannelGroup
regular_groups l = select (λ g. has_category g && not (has_tag g)) l

unfoldable pub included : Include → List ChannelGroup → List ChannelGroup
included tags_only l = select has_tag l
included categories_only l = regular_groups l
included distinct_regular_and_tag_categories l = add_all_tagged true (regular_groups l) l
included all_regular_and_tag_categories l = add_all_tagged false (regular_groups l) l

-- A send on a nil channel never ends.
abbrev pub reply : Bool → Cache → Reply → Outcome (Cache × Reply)
reply true c r = returns (c, r)
reply false c r = blocks

abbrev pub found_groups : Message → Option Settings → Option Settings
found_groups m none = none
found_groups m (some s) =
    some
      (record { channel_id = m.channel_id; channel_groups = included m.inclusion s.channel_groups })

unfoldable pub write_groups : Message → Cache → Cache
write_groups m c =
    if m.channel_id == 0
    then c
    else insert m.channel_id
        (record { channel_id = m.channel_id; channel_groups = m.channel_groups }) c

abbrev pub dispatch : OperationType → Message → Cache → Outcome (Cache × Reply)
dispatch read_channelgroups m c = reply m.out c (groups (found_groups m (lookup m.channel_id c)))
dispatch write_channelgroups m c = returns (write_groups m c, no_reply)

unfoldable pub process : Message → Cache → Outcome (Cache × Reply)
process m c = dispatch m.operation m c

-- The loop over the messages that arrive, with what it replies.
unfoldable pub run : List Message → Cache → Outcome (Cache × List Reply)
run [] c = returns (c, [])
run (m ∷ l) c = process m c >>= λ r. run l r.0 >>= λ q. returns (q.0, r.1 ∷ q.1)

-- A client waits for ever on a reply that is not sent to its channel.
abbrev settings_in : Reply → Outcome (Option Settings)
settings_in (groups s) = returns s
settings_in no_reply = blocks

unfoldable pub get_channel_groups_by_channel_id : ℕ → Include → Cache → Outcome (Option Settings)
get_channel_groups_by_channel_id channel_id inclusion c =
    process
      (record {
        operation = read_channelgroups;
        channel_id = channel_id;
        inclusion = inclusion;
        channel_groups = [];
        out = true;
      })
      c
    >>= λ r. settings_in r.1

unfoldable pub set_channel_groups_by_channel_id : ℕ → List ChannelGroup → Message
set_channel_groups_by_channel_id channel_id channel_groups = record {
  operation = write_channelgroups;
  channel_id = channel_id;
  inclusion = categories_only;
  channel_groups = channel_groups;
  out = false;
}
