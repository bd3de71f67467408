-- ===== src/ChannelCache/Clients.antt =====
-- The exported functions of pkg/commons/managedChannel.go: the messages that they send to the
-- cache, and what they take from its replies.
use torq.Prelude.{ℕ, ◌==◌, if◌then◌else◌, Bool, true, false, ◌||◌, Option, none, some, List, []}
use torq.Prelude.Text.{Text, bytes, same_text}
use torq.Runtime.{Outcome, returns, blocks, ◌>>=◌}
use torq.Constants.{ChannelStatus, opening}
use torq.ShortIds.Convert.{convert_lnd_short_channel_id, parse_channel_point}
use torq.ChannelCache.Types.{
  OperationType, read_active_channelid_by_shortchannelid, read_channelid_by_shortchannelid,
  read_active_channelid_by_funding_transaction, read_channelid_by_funding_transaction,
  read_channelids_by_node_id, read_statusid_by_channelid, read_channel_settings,
  read_all_channel_settings, write_channel, write_channelstatusid, Message, Settings, Reply,
  channel, channel_setting, channel_settings, channel_ids, Cache,
}
use torq.ChannelCache.Process.{process}

-- `ManagedChannel{}` with a type.
abbrev pub blank : OperationType → Message
blank t = record {
  operation = t;
  channel_id = 0;
  short_channel_id = [];
  lnd_short_channel_id = 0;
  funding_transaction_hash = [];
  funding_output_index = 0;
  capacity = 0;
  node_id = 0;
  first_node_id = 0;
  second_node_id = 0;
  initiating_node_id = none;
  accepting_node_id = none;
  is_private = false;
  status = opening;
  out = false;
  channel_setting_out = false;
  channel_settings_out = false;
  channel_ids_out = false;
}

-- A client waits for ever on a reply that is not sent to its channel.
abbrev id_in : Reply → Outcome ℕ
id_in (channel m) = returns m.channel_id
id_in _ = blocks

abbrev status_in : Reply → Outcome ChannelStatus
status_in (channel m) = returns m.status
status_in _ = blocks

abbrev setting_in : Reply → Outcome Settings
setting_in (channel_setting s) = returns s
setting_in _ = blocks

abbrev settings_in : Reply → Outcome (List Settings)
settings_in (channel_settings l) = returns l
settings_in _ = blocks

abbrev ids_in : Reply → Outcome (List ℕ)
ids_in (channel_ids l) = returns l
ids_in _ = blocks

abbrev pub by_funding : OperationType → Text → ℕ → Cache → Outcome ℕ
by_funding t hash index c =
    process
      (record (blank t) {
        funding_transaction_hash = hash;
        funding_output_index = index;
        out = true;
      })
      c
    >>= λ r. id_in r.1

unfoldable pub get_active_channel_id_by_funding_transaction : Text → ℕ → Cache → Outcome ℕ
get_active_channel_id_by_funding_transaction hash index c =
    by_funding read_active_channelid_by_funding_transaction hash index c

unfoldable pub get_channel_id_by_funding_transaction : Text → ℕ → Cache → Outcome ℕ
get_channel_id_by_funding_transaction hash index c =
    by_funding read_channelid_by_funding_transaction hash index c

unfoldable pub get_channel_id_by_channel_point : Text → Cache → Outcome ℕ
get_channel_id_by_channel_point channel_point c =
    let p = parse_channel_point channel_point in
    by_funding read_channelid_by_funding_transaction p.0 p.1 c

abbrev pub by_short_id : OperationType → Text → Cache → Outcome ℕ
by_short_id t id c =
    process (record (blank t) { short_channel_id = id; out = true }) c >>= λ r. id_in r.1

abbrev is_no_id : Text → Bool
is_no_id id = same_text id [] || same_text id (bytes "0x0x0")

unfoldable pub get_active_channel_id_by_short_channel_id : Text → Cache → Outcome ℕ
get_active_channel_id_by_short_channel_id id c =
    if is_no_id id then returns 0 else by_short_id read_active_channelid_by_shortchannelid id c

unfoldable pub get_channel_id_by_short_channel_id : Text → Cache → Outcome ℕ
get_channel_id_by_short_channel_id id c =
    if is_no_id id then returns 0 else by_short_id read_channelid_by_shortchannelid id c

unfoldable pub get_channel_id_by_lnd_short_channel_id : ℕ → Cache → Outcome ℕ
get_channel_id_by_lnd_short_channel_id id c =
    if id == 0
    then returns 0
    else by_short_id read_channelid_by_shortchannelid (convert_lnd_short_channel_id id) c

unfoldable pub get_channel_ids_by_node_id : ℕ → Cache → Outcome (List ℕ)
get_channel_ids_by_node_id n c =
    process (record (blank read_channelids_by_node_id) { node_id = n; channel_ids_out = true }) c
    >>= λ r. ids_in r.1

unfoldable pub get_channel_status_by_channel_id : ℕ → Cache → Outcome ChannelStatus
get_channel_status_by_channel_id id c =
    process (record (blank read_statusid_by_channelid) { channel_id = id; out = true }) c >>= λ r.
    status_in r.1

unfoldable pub get_channel_settings_by_node_id : ℕ → Cache → Outcome (List Settings)
get_channel_settings_by_node_id n c =
    process (record (blank read_all_channel_settings) { node_id = n; channel_settings_out = true })
      c
    >>= λ r. settings_in r.1

unfoldable pub get_channel_setting_by_channel_id : ℕ → Cache → Outcome Settings
get_channel_setting_by_channel_id id c =
    process (record (blank read_channel_settings) { channel_id = id; channel_setting_out = true }) c
    >>= λ r. setting_in r.1

abbrev text_or_empty : Option Text → Text
text_or_empty none = []
text_or_empty (some s) = s

unfoldable pub set_channel :
    ℕ
    → Option Text
    → ChannelStatus
    → Text
    → (index capacity : ℕ) → Bool
    → (first second : ℕ) → (initiating accepting : Option ℕ) → Message
set_channel id short status hash index capacity is_private first second initiating accepting =
    record (blank write_channel) {
      channel_id = id;
      short_channel_id = text_or_empty short;
      status = status;
      funding_transaction_hash = hash;
      funding_output_index = index;
      capacity = capacity;
      is_private = is_private;
      first_node_id = first;
      second_node_id = second;
      initiating_node_id = initiating;
      accepting_node_id = accepting;
    }

unfoldable pub set_channel_status : ℕ → ChannelStatus → Message
set_channel_status id status = record (blank write_channelstatusid) {
  channel_id = id;
  status = status;
}
