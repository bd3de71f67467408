-- ===== src/ChannelCache/Process.antt =====
-- `processManagedChannel` and the loop of `ManagedChannelCache` (pkg/commons/managedChannel.go).
use torq.Prelude.{
  ℕ, ltb, ◌==◌, if◌then◌else◌, not, Bool, true, false, ◌&&◌, ◌||◌, Option, none, some, List, [],
  ◌∷◌, nat_eq,
}
use torq.Prelude.Map.{Map, lookup, insert, delete, values}
use torq.Prelude.Text.{Text, same_text, text_eq}
use torq.Runtime.{Outcome, returns, blocks, ◌>>=◌}
use torq.Constants.{ChannelStatus, cooperative_closed}
use torq.ShortIds.Convert.{
  convert_lnd_short_channel_id, convert_short_channel_id_to_lnd, create_channel_point,
}
use torq.ChannelCache.Types.{
  OperationType, read_active_channelid_by_shortchannelid, read_channelid_by_shortchannelid,
  read_active_channelid_by_funding_transaction, read_channelid_by_funding_transaction,
  read_channelids_by_node_id, read_statusid_by_channelid, read_channel_settings,
  read_all_channel_settings, write_channel, write_channelstatusid, Message, Settings, Reply,
  no_reply, channel, channel_setting, channel_settings, channel_ids, Cache,
}
use torq.ChannelCache.Reads.{settings_or_zero, channel_setting_of, channel_settings_of}

-- `m[k]` of a map to numbers: 0 where there is none.
abbrev pub number_or_zero : Option ℕ → ℕ
number_or_zero none = 0
number_or_zero (some n) = n

abbrev pub channel_point_of : Message → Text
channel_point_of m = create_channel_point m.funding_transaction_hash m.funding_output_index

-- A send on a nil channel never ends.
abbrev pub reply : Bool → Cache → Reply → Outcome (Cache × Reply)
reply true c r = returns (c, r)
reply false c r = blocks

-- The loop of READ_CHANNELIDS_BY_NODE_ID.
unfoldable pub ids_of_node : ℕ → List Settings → List ℕ
ids_of_node node_id [] = []
ids_of_node node_id (s ∷ l) =
    let rest = ids_of_node node_id l in
    let second = if s.second_node_id == node_id then s.channel_id ∷ rest else rest in
    if s.first_node_id == node_id then s.channel_id ∷ second else second

abbrev pub with_lnd : Message → Outcome (Option ℕ) → Outcome Message
with_lnd m o = o >>= λ id. returns (record m { lnd_short_channel_id = number_or_zero id })

abbrev pub named_copy : Message → Message
named_copy m =
    if same_text m.short_channel_id [] && not (m.lnd_short_channel_id == 0)
    then record m { short_channel_id = convert_lnd_short_channel_id m.lnd_short_channel_id }
    else m

abbrev pub converted_copy : Message → Outcome Message
converted_copy m =
    if m.lnd_short_channel_id == 0 && not (same_text m.short_channel_id [])
    then with_lnd m (convert_short_channel_id_to_lnd m.short_channel_id)
    else returns m

-- It changes its own copy of the message. A short id that does not parse gives 0, or panics.
unfoldable pub parse_and_convert_short_ids : Message → Outcome Message
parse_and_convert_short_ids m = converted_copy (named_copy m)

abbrev pub settings_from : Message → Settings
settings_from m = record {
  channel_id = m.channel_id;
  short_channel_id = m.short_channel_id;
  lnd_short_channel_id = 0;
  funding_transaction_hash = m.funding_transaction_hash;
  funding_output_index = m.funding_output_index;
  capacity = m.capacity;
  first_node_id = m.first_node_id;
  second_node_id = m.second_node_id;
  initiating_node_id = m.initiating_node_id;
  accepting_node_id = m.accepting_node_id;
  is_private = m.is_private;
  status = m.status;
}

-- An entry of a short id, which an empty one does not get.
abbrev pub put_short_id : Message → Map Text ℕ → Map Text ℕ
put_short_id m ids =
    if same_text m.short_channel_id [] then ids else insert m.short_channel_id m.channel_id ids

abbrev pub is_open : ChannelStatus → Bool
is_open status = ltb status cooperative_closed

abbrev pub put_channel : Message → Cache → Cache
put_channel m c = record c {
  short_channel_ids =
      if is_open m.status then put_short_id m c.short_channel_ids else c.short_channel_ids;
  channel_points =
      if is_open m.status
      then insert (channel_point_of m) m.channel_id c.channel_points
      else c.channel_points;
  all_short_channel_ids = put_short_id m c.all_short_channel_ids;
  all_channel_points = insert (channel_point_of m) m.channel_id c.all_channel_points;
  statuses = insert m.channel_id m.status c.statuses;
  settings = insert m.channel_id (settings_from m) c.settings;
}

unfoldable pub write_whole_channel : Message → Cache → Outcome Cache
write_whole_channel m c =
    if m.channel_id == 0 || same_text m.funding_transaction_hash []
    then returns c
    else (parse_and_convert_short_ids m >>= λ discarded. returns (put_channel m c))

-- The loop that looks for a key of a value, which breaks at the first.
unfoldable pub find_key : ℕ → Map Text ℕ → Text
find_key id [] = []
find_key id ((k, v) ∷ m) = let rest = find_key id m in if v == id then k else rest

unfoldable pub delete_key_of : ℕ → Map Text ℕ → Map Text ℕ
delete_key_of id m = let k = find_key id m in if same_text k [] then m else delete k m

abbrev pub put_status : Message → Cache → Cache
put_status m c = record c {
  short_channel_ids =
      if is_open m.status
      then c.short_channel_ids
      else delete_key_of m.channel_id c.short_channel_ids;
  channel_points =
      if is_open m.status then c.channel_points else delete_key_of m.channel_id c.channel_points;
  statuses = insert m.channel_id m.status c.statuses;
  settings =
      insert m.channel_id
        (record (settings_or_zero (lookup m.channel_id c.settings)) { status = m.status })
        c.settings;
}

unfoldable pub write_status : Message → Cache → Cache
write_status m c = if m.channel_id == 0 then c else put_status m c

abbrev with_id : Message → Option ℕ → Reply
with_id m id = channel (record m { channel_id = number_or_zero id })

-- The switch.
unfoldable pub dispatch : OperationType → Message → Cache → Outcome (Cache × Reply)
dispatch read_active_channelid_by_shortchannelid m c =
    reply m.out c (with_id m (lookup m.short_channel_id c.short_channel_ids))
dispatch read_channelid_by_shortchannelid m c =
    reply m.out c (with_id m (lookup m.short_channel_id c.all_short_channel_ids))
dispatch read_active_channelid_by_funding_transaction m c =
    reply m.out c (with_id m (lookup (channel_point_of m) c.channel_points))
dispatch read_channelid_by_funding_transaction m c =
    reply m.out c (with_id m (lookup (channel_point_of m) c.all_channel_points))
dispatch read_statusid_by_channelid m c =
    reply m.out c (channel (record m { status = number_or_zero (lookup m.channel_id c.statuses) }))
dispatch read_channelids_by_node_id m c =
    reply m.channel_ids_out c (channel_ids (ids_of_node m.node_id (values c.settings)))
dispatch read_all_channel_settings m c =
    reply m.channel_settings_out c (channel_settings (channel_settings_of c m.node_id))
dispatch read_channel_settings m c =
    reply m.channel_setting_out c (channel_setting (channel_setting_of c m.channel_id))
dispatch write_channel m c = write_whole_channel m c >>= λ c'. returns (c', no_reply)
dispatch write_channelstatusid m c = returns (write_status m c, no_reply)

unfoldable pub process : Message → Cache → Outcome (Cache × Reply)
process m c = dispatch m.operation m c

abbrev pub empty : Cache
empty = record {
  settings = [];
  short_channel_ids = [];
  all_short_channel_ids = [];
  channel_points = [];
  all_channel_points = [];
  statuses = [];
}

-- The loop over the messages that arrive, with what it replies.
unfoldable pub run : List Message → Cache → Outcome (Cache × List Reply)
run [] c = returns (c, [])
run (m ∷ l) c = process m c >>= λ r. run l r.0 >>= λ q. returns (q.0, r.1 ∷ q.1)
