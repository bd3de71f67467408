-- ===== src/GroupCache/Tests.antt =====
-- Three groups of one channel, and the theorem at them (pkg/commons/managedChannelGroup.go).
use torq.Prelude.{ℕ, ◌≡◌, refl, Option, none, some, List, [], ◌∷◌, ◌++◌, arith, select, any}
use torq.Runtime.{returns}
use torq.GroupCache.Process.{
  ChannelGroup, categories_only, distinct_regular_and_tag_categories,
  all_regular_and_tag_categories, tags_only, no_reply, Cache, has_tag, regular_groups,
  add_all_tagged, included, process, set_channel_groups_by_channel_id,
}
use torq.GroupCache.Included.{tagged_groups, Answers, AreDistinct, set_channel_groups-read_back}

-- A group with a category behind a pointer of its own.
abbrev group_at : ℕ → Option ℕ → ChannelGroup
group_at address tag = record {
  tag_id = tag;
  tag_name = none;
  tag_style = none;
  category_id = some (record { address = address; value = 4 });
  category_name = none;
  category_style = none;
}

abbrev three : List ChannelGroup
three = group_at 100 none ∷ group_at 108 (some 1) ∷ group_at 116 (some 2) ∷ []

-- All three have the category 4, and all three are read as distinct.
distinct_of_three : included distinct_regular_and_tag_categories three ≡ three
unfolding included add_all_tagged select any
distinct_of_three = refl

-- The second group shares the pointer of the first.
abbrev shared : List ChannelGroup
shared = group_at 100 none ∷ group_at 100 (some 1) ∷ group_at 116 (some 2) ∷ []

distinct_of_shared :
    included distinct_regular_and_tag_categories shared
    ≡ group_at 100 none ∷ group_at 116 (some 2) ∷ []
unfolding included add_all_tagged select any
distinct_of_shared = refl

set_channel_groups-read_back_example :
    (c' : Cache) × (process (set_channel_groups_by_channel_id 7 shared) [] ≡ returns (c', no_reply))
    × Answers 7 tags_only c' (select has_tag shared)
    × Answers 7 categories_only c' (regular_groups shared)
    × Answers 7 all_regular_and_tag_categories c' (regular_groups shared ++ tagged_groups shared)
    × ((d : List ChannelGroup) × Answers 7 distinct_regular_and_tag_categories c'
          (regular_groups shared ++ d)
        × AreDistinct shared d)
set_channel_groups-read_back_example = set_channel_groups-read_back 7 shared [] (omega arith)
