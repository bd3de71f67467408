-- ===== src/ChannelCache/Reads.antt =====
-- The reads of the channel cache that other caches make (pkg/commons/managedChannel.go).
use torq.Prelude.{ℕ, Option, none, some, List, [], ◌∷◌, nat_eq, ◌==◌, if◌then◌else◌}
use torq.Prelude.Map.{values, lookup}
use torq.ChannelCache.Types.{Settings, zero_settings, Cache}

-- `m[k]`, which is the zero value for an absent key.
abbrev pub settings_or_zero : Option Settings → Settings
settings_or_zero none = zero_settings
settings_or_zero (some s) = s

-- READ_CHANNEL_SETTINGS.
unfoldable pub channel_setting_of : Cache → ℕ → Settings
channel_setting_of c channel_id = settings_or_zero (lookup channel_id c.settings)

-- The loop of READ_ALL_CHANNEL_SETTINGS. A channel whose two ends are the node is listed twice.
unfoldable pub settings_of_node : ℕ → List Settings → List Settings
settings_of_node node_id [] = []
settings_of_node node_id (s ∷ l) =
    let rest = settings_of_node node_id l in
    let second = if s.second_node_id == node_id then s ∷ rest else rest in
    if s.first_node_id == node_id then s ∷ second else second

unfoldable pub channel_settings_of : Cache → ℕ → List Settings
channel_settings_of c node_id = settings_of_node node_id (values c.settings)
