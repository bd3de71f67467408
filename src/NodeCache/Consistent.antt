-- ===== src/NodeCache/Consistent.antt =====
-- The maps of the node cache agree after every sequence of messages (pkg/commons/managedNode.go).
use torq.Prelude.{
  Bool, true, false, Bool-cases, inl, inr, ◌==◌, nat_eq, Option, none, some, if◌then◌else◌,
}
use torq.Runtime.{OnReturn}
use torq.Prelude.Map.{lookup}
use torq.Constants.{Chain, Network}
use torq.NodeCache.Types.{
  OperationType, read_all_torq_node, write_inactive_torq_node, read_all_torq_nodeids,
  read_all_torq_publickeys, read_active_torq_node, write_active_torq_node, read_active_torq_nodeids,
  read_active_torq_publickeys, read_all_active_torq_nodeids, read_active_channel_node,
  read_channel_node, write_active_channel_node, write_inactive_channel_node,
  inactivate_channel_node, read_all_channel_nodeids, read_all_channel_publickeys,
  read_node_settings, Message, IdCache, Cache,
}
use torq.NodeCache.Ids.{find_id}
use torq.NodeCache.Reads.{
  at_place, init_all_torq, init_active_torq, init_channel, init_all_channel, Answer, read_node,
  read_node_ids, read_public_keys, read_all_active, read_settings,
}
use torq.NodeCache.Writes.{
  store_inactive_torq, store_active_torq, store_active_channel, store_inactive_channel,
  store_inactivated, write_torq, write_channel, inactivate,
}
use torq.NodeCache.Process.{answer, dispatch, empty}
use torq.NodeCache.Covering.{
  Covers, init_left-Covers, init_right-Covers, put_right-Covers, put_both-Covers,
  delete_left-Covers,
}

-- The active Torq nodes are among all Torq nodes, these are among all nodes with channels, and so are
-- the nodes with active channels.
pub record IsConsistent (c : Cache) : Type 0 where
  pub active_torq_all : Covers c.active_torq c.all_torq
  pub torq_channel : Covers c.all_torq c.all_channel
  pub channel_all : Covers c.channel c.all_channel

module _ (chain : Chain) (network : Network) (c : Cache) (h : IsConsistent c) where
  init_all_torq-ok : IsConsistent (init_all_torq chain network c)
  init_all_torq-ok = record {
    active_torq_all = init_right-Covers _ _ h.active_torq_all chain network;
    torq_channel = init_left-Covers _ _ h.torq_channel chain network;
    channel_all = h.channel_all;
  }

  init_active_torq-ok : IsConsistent (init_active_torq chain network c)
  init_active_torq-ok = record {
    active_torq_all = init_left-Covers _ _ h.active_torq_all chain network;
    torq_channel = h.torq_channel;
    channel_all = h.channel_all;
  }

  init_channel-ok : IsConsistent (init_channel chain network c)
  init_channel-ok = record {
    active_torq_all = h.active_torq_all;
    torq_channel = h.torq_channel;
    channel_all = init_left-Covers _ _ h.channel_all chain network;
  }

  init_all_channel-ok : IsConsistent (init_all_channel chain network c)
  init_all_channel-ok = record {
    active_torq_all = h.active_torq_all;
    torq_channel = init_right-Covers _ _ h.torq_channel chain network;
    channel_all = init_right-Covers _ _ h.channel_all chain network;
  }

  module _ (m : Message) where
    store_inactive_torq-ok : IsConsistent (store_inactive_torq m c chain network)
    store_inactive_torq-ok = record {
      active_torq_all = put_right-Covers _ _ h.active_torq_all chain network m.public_key m.node_id;
      torq_channel = put_both-Covers _ _ h.torq_channel chain network m.public_key m.node_id;
      channel_all = put_right-Covers _ _ h.channel_all chain network m.public_key m.node_id;
    }

    store_active_torq-ok : IsConsistent (store_active_torq m c chain network)
    store_active_torq-ok = record {
      active_torq_all = put_both-Covers _ _ h.active_torq_all chain network m.public_key m.node_id;
      torq_channel = put_both-Covers _ _ h.torq_channel chain network m.public_key m.node_id;
      channel_all = put_both-Covers _ _ h.channel_all chain network m.public_key m.node_id;
    }

    store_active_channel-ok : IsConsistent (store_active_channel m c chain network)
    store_active_channel-ok = record {
      active_torq_all = h.active_torq_all;
      torq_channel = put_right-Covers _ _ h.torq_channel chain network m.public_key m.node_id;
      channel_all = put_both-Covers _ _ h.channel_all chain network m.public_key m.node_id;
    }

    store_inactive_channel-ok : IsConsistent (store_inactive_channel m c chain network)
    store_inactive_channel-ok = record {
      active_torq_all = h.active_torq_all;
      torq_channel = put_right-Covers _ _ h.torq_channel chain network m.public_key m.node_id;
      channel_all = put_right-Covers _ _ h.channel_all chain network m.public_key m.node_id;
    }

    store_inactivated-ok : IsConsistent (store_inactivated m c chain network)
    store_inactivated-ok = record {
      active_torq_all = h.active_torq_all;
      torq_channel = h.torq_channel;
      channel_all = delete_left-Covers _ _ h.channel_all chain network m.public_key;
    }

at_place-holds :
    {A : Type 0} (P : A → Type 0) (chain : Option Chain) (network : Option Network) (missing : A)
    (f : Chain → Network → A)
    → P missing
    → ((chain : Chain) (network : Network) → P (f chain network))
    → P (at_place chain network missing f)
at_place-holds P none network missing f p q = p
at_place-holds P (some chain) none missing f p q = p
at_place-holds P (some chain) (some network) missing f p q = q chain network

guarded-ok :
    (b : Bool) (c d : Cache) → IsConsistent c → IsConsistent d → IsConsistent (if b then c else d)
guarded-ok true c d h g = h
guarded-ok false c d h g = g

abbrev Keeps : Answer → Type 0
Keeps a = IsConsistent a.0

answer-ok : (out : Bool) (a : Answer) → Keeps a → OnReturn (λ r. IsConsistent r.0) (answer out a)
answer-ok true a h = h
answer-ok false a h = tt

module _ (m : Message) (c : Cache) (h : IsConsistent c) where
  module _ (init : Chain → Network → Cache → Cache) (of_cache : Cache → IdCache)
      (ok : (chain : Chain) (network : Network) → IsConsistent (init chain network c)) where
    read_node-ok : (has_names : Bool) → Keeps (read_node init of_cache has_names m c)
    unfolding read_node
    read_node-ok has_names = at_place-holds Keeps m.chain m.network _ _ h ok

    read_node_ids-ok : Keeps (read_node_ids init of_cache m c)
    unfolding read_node_ids
    read_node_ids-ok = at_place-holds Keeps m.chain m.network _ _ h ok

    read_public_keys-ok : Keeps (read_public_keys init of_cache m c)
    unfolding read_public_keys
    read_public_keys-ok = at_place-holds Keeps m.chain m.network _ _ h ok

  read_all_active-ok : Keeps (read_all_active m c)
  unfolding read_all_active
  read_all_active-ok =
      at_place-holds Keeps m.chain m.network _ _ h
        (λ chain network. init_active_torq-ok chain network c h)

  read_settings-ok : Keeps (read_settings m c)
  unfolding read_settings
  read_settings-ok = elim (Bool-cases (m.node_id == 0)) [ inl e ↦ rw e h | inr e ↦ rw e h ]

  module _ (store : Message → Cache → Chain → Network → Cache)
      (ok : (chain : Chain) (network : Network) → IsConsistent (store m c chain network)) where
    write_torq-ok : IsConsistent (write_torq store m c)
    unfolding write_torq
    write_torq-ok =
        guarded-ok _ _ _ h (at_place-holds IsConsistent m.chain m.network c (store m c) h ok)

    write_channel-ok : IsConsistent (write_channel store m c)
    unfolding write_channel
    write_channel-ok =
        guarded-ok _ _ _ h (at_place-holds IsConsistent m.chain m.network c (store m c) h ok)

  inactivate-ok : IsConsistent (inactivate m c)
  unfolding inactivate
  inactivate-ok = guarded-ok _ _ _ h (
      at_place-holds IsConsistent m.chain m.network c (store_inactivated m c) h
        (λ chain network. store_inactivated-ok chain network c h m))

  pub dispatch-ok : (t : OperationType) → OnReturn (λ r. IsConsistent r.0) (dispatch t m c)
  unfolding dispatch
  dispatch-ok read_all_torq_node =
      answer-ok m.out _ (read_node-ok init_all_torq _ (λ n w. init_all_torq-ok n w c h) true)
  dispatch-ok read_active_torq_node =
      answer-ok m.out _ (read_node-ok init_active_torq _ (λ n w. init_active_torq-ok n w c h) true)
  dispatch-ok read_active_channel_node =
      answer-ok m.out _ (read_node-ok init_channel _ (λ n w. init_channel-ok n w c h) false)
  dispatch-ok read_channel_node =
      answer-ok m.out _ (read_node-ok init_all_channel _ (λ n w. init_all_channel-ok n w c h) false)
  dispatch-ok read_all_torq_nodeids =
      answer-ok m.node_ids_out _
        (read_node_ids-ok init_all_torq _ (λ n w. init_all_torq-ok n w c h))
  dispatch-ok read_active_torq_nodeids =
      answer-ok m.node_ids_out _
        (read_node_ids-ok init_active_torq _ (λ n w. init_active_torq-ok n w c h))
  dispatch-ok read_all_channel_nodeids =
      answer-ok m.node_ids_out _
        (read_node_ids-ok init_all_channel _ (λ n w. init_all_channel-ok n w c h))
  dispatch-ok read_all_torq_publickeys =
      answer-ok m.public_keys_out _
        (read_public_keys-ok init_all_torq _ (λ n w. init_all_torq-ok n w c h))
  dispatch-ok read_active_torq_publickeys =
      answer-ok m.public_keys_out _
        (read_public_keys-ok init_active_torq _ (λ n w. init_active_torq-ok n w c h))
  dispatch-ok read_all_channel_publickeys =
      answer-ok m.public_keys_out _
        (read_public_keys-ok init_all_channel _ (λ n w. init_all_channel-ok n w c h))
  dispatch-ok read_all_active_torq_nodeids = answer-ok m.node_ids_out _ read_all_active-ok
  dispatch-ok read_node_settings = answer-ok m.node_id_settings_out _ read_settings-ok
  dispatch-ok write_inactive_torq_node =
      write_torq-ok store_inactive_torq (λ n w. store_inactive_torq-ok n w c h m)
  dispatch-ok write_active_torq_node =
      write_torq-ok store_active_torq (λ n w. store_active_torq-ok n w c h m)
  dispatch-ok write_active_channel_node =
      write_channel-ok store_active_channel (λ n w. store_active_channel-ok n w c h m)
  dispatch-ok write_inactive_channel_node =
      write_channel-ok store_inactive_channel (λ n w. store_inactive_channel-ok n w c h m)
  dispatch-ok inactivate_channel_node = inactivate-ok

pub empty-ok : IsConsistent empty
unfolding find_id lookup
empty-ok = record {
  active_torq_all = record { at = λ chain network key e. cc };
  torq_channel = record { at = λ chain network key e. cc };
  channel_all = record { at = λ chain network key e. cc };
}
