-- ===== src/ChannelCache/Types.antt =====
-- The data of pkg/commons/managedChannel.go: messages, channel settings, replies and the six maps.
use torq.Prelude.{ℕ, Bool, false, Option, none, List, []}
use torq.Prelude.Map.{Map}
use torq.Prelude.Text.{Text}
use torq.Constants.{ChannelStatus, opening}

pub data OperationType : Type 0 where
  read_active_channelid_by_shortchannelid read_channelid_by_shortchannelid : OperationType
  read_active_channelid_by_funding_transaction : OperationType
  read_channelid_by_funding_transaction : OperationType
  read_channelids_by_node_id read_statusid_by_channelid : OperationType
  read_channel_settings read_all_channel_settings : OperationType
  write_channel write_channelstatusid : OperationType

-- `ManagedChannel`, the message. It is also the reply to the reads of an id or a status.
pub record Message : Type 0 where
  pub operation : OperationType
  pub channel_id : ℕ
  pub short_channel_id : Text
  pub lnd_short_channel_id : ℕ  -- uint64
  pub funding_transaction_hash : Text
  pub funding_output_index : ℕ  -- int
  pub capacity : ℕ  -- int64
  pub node_id : ℕ
  pub first_node_id : ℕ
  pub second_node_id : ℕ
  pub initiating_node_id : Option ℕ
  pub accepting_node_id : Option ℕ
  pub is_private : Bool
  pub status : ChannelStatus
  pub out : Bool
  pub channel_setting_out : Bool
  pub channel_settings_out : Bool
  pub channel_ids_out : Bool

-- `ManagedChannelSettings`.
pub record Settings : Type 0 where
  pub channel_id : ℕ
  pub short_channel_id : Text
  pub lnd_short_channel_id : ℕ
  pub funding_transaction_hash : Text
  pub funding_output_index : ℕ
  pub capacity : ℕ
  pub first_node_id : ℕ
  pub second_node_id : ℕ
  pub initiating_node_id : Option ℕ
  pub accepting_node_id : Option ℕ
  pub is_private : Bool
  pub status : ChannelStatus

-- `ManagedChannelSettings{}`, which a read of an absent key gives.
abbrev pub zero_settings : Settings
zero_settings = record {
  channel_id = 0;
  short_channel_id = [];
  lnd_short_channel_id = 0;
  funding_transaction_hash = [];
  funding_output_index = 0;
  capacity = 0;
  first_node_id = 0;
  second_node_id = 0;
  initiating_node_id = none;
  accepting_node_id = none;
  is_private = false;
  status = opening;
}

pub data Reply : Type 0 where
  no_reply : Reply
  channel : Message → Reply
  channel_setting : Settings → Reply
  channel_settings : List Settings → Reply
  channel_ids : List ℕ → Reply

-- The maps of the loop: the active short ids and channel points, all of them, and what is known
-- of each channel.
pub record Cache : Type 0 where
  pub settings : Map ℕ Settings
  pub short_channel_ids : Map Text ℕ
  pub all_short_channel_ids : Map Text ℕ
  pub channel_points : Map Text ℕ
  pub all_channel_points : Map Text ℕ
  pub statuses : Map ℕ ChannelStatus
