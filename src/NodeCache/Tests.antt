-- ===== src/NodeCache/Tests.antt =====
-- Small runs of the node cache, and the theorems at those (pkg/commons/managedNode.go).
use torq.Prelude.{◌≡◌, refl, none, some, List, [], ◌∷◌, arith, nat_eq}
use torq.Prelude.Map.{lookup, insert, delete}
use torq.Prelude.Text.{Text, same_text, text_eq}
use torq.Runtime.{returns}
use torq.Constants.{inactive, active, bitcoin, main_net, test_net}
use torq.NodeCache.Types.{no_reply, Message, Cache, same_chain, same_network}
use torq.NodeCache.Ids.{initialize_id_cache, put_id, delete_id}
use torq.NodeCache.Reads.{read_all_active, ids_of_chains, ids_of_networks}
use torq.NodeCache.Writes.{write_torq, write_channel, inactivate, node_settings_from}
use torq.NodeCache.Process.{dispatch, process, run, empty}
use torq.NodeCache.Clients.{
  set_torq_node, set_channel_node, inactivate_channel_node_of, get_all_active_torq_node_ids,
  get_node_id_by_public_key, get_active_node_id_by_public_key, get_node_settings_by_node_id,
}
use torq.NodeCache.Consistent.{IsConsistent}
use torq.NodeCache.Runs.{run-IsConsistent_nodes}
use torq.NodeCache.ReadBack.{IsSameElsewhere, set_torq_node-read_back, inactivate-settings}

abbrev key : Text
key = 3 ∷ 4 ∷ []

abbrev messages : List Message
messages =
    set_torq_node 5 (65 ∷ []) active key bitcoin main_net
    ∷ set_channel_node 6 (9 ∷ []) bitcoin test_net 1
    ∷ inactivate_channel_node_of (9 ∷ []) bitcoin test_net
    ∷ []

abbrev final : Cache
final = record {
  all_torq = (bitcoin, (main_net, (key, 5) ∷ []) ∷ []) ∷ [];
  settings =
      (
        5,
        node_settings_from (set_torq_node 5 (65 ∷ []) active key bitcoin main_net) bitcoin main_net
            (some (65 ∷ [])) inactive,
      )
      ∷ (
        6,
        node_settings_from (set_channel_node 6 (9 ∷ []) bitcoin test_net 1) bitcoin test_net none
            active,
      )
      ∷ (
        0,
        node_settings_from (inactivate_channel_node_of (9 ∷ []) bitcoin test_net) bitcoin test_net
            none inactive,
      )
      ∷ [];
  active_torq = (bitcoin, (main_net, (key, 5) ∷ []) ∷ []) ∷ [];
  channel = (bitcoin, (main_net, (key, 5) ∷ []) ∷ (test_net, []) ∷ []) ∷ [];
  all_channel = (bitcoin, (main_net, (key, 5) ∷ []) ∷ (test_net, ((9 ∷ []), 6) ∷ []) ∷ []) ∷ [];
  torq_names = (5, 65 ∷ []) ∷ [];
}

messages-run : run messages empty ≡ returns (final, no_reply ∷ no_reply ∷ no_reply ∷ [])
unfolding run process set_torq_node set_channel_node inactivate_channel_node_of write_torq
    write_channel inactivate initialize_id_cache put_id delete_id lookup insert delete same_text
    same_chain same_network dispatch
messages-run = refl

active_torq_ids : get_all_active_torq_node_ids none none final ≡ returns (5 ∷ [])
unfolding get_all_active_torq_node_ids process dispatch read_all_active ids_of_chains
    ids_of_networks
active_torq_ids = refl

run-IsConsistent_nodes_example : IsConsistent final
run-IsConsistent_nodes_example =
    run-IsConsistent_nodes messages final (no_reply ∷ no_reply ∷ no_reply ∷ []) messages-run

unnamed : lookup 6 empty.torq_names ≡ none
unfolding lookup
unnamed = refl

set_torq_node-read_back_example :
    (c' : Cache) × (process (set_torq_node 5 (65 ∷ []) active key bitcoin main_net) empty
      ≡ returns (c', no_reply))
    × (get_node_id_by_public_key key bitcoin main_net c' ≡ returns 5)
    × (get_active_node_id_by_public_key key bitcoin main_net c' ≡ returns 5)
    × (get_node_settings_by_node_id 5 c'
        ≡ returns (record {
          node_id = 5;
          chain = bitcoin;
          network = main_net;
          public_key = key;
          name = some (65 ∷ []);
          status = inactive;
        }))
    × IsSameElsewhere bitcoin main_net key empty c'
set_torq_node-read_back_example =
    set_torq_node-read_back bitcoin main_net key 5 (λ e. cc) (omega arith) (65 ∷ []) empty (λ e. cc)

inactivate-settings_example :
    (c' c'' : Cache) × (process (set_channel_node 6 key bitcoin main_net 1) empty
      ≡ returns (c', no_reply))
    × (process (inactivate_channel_node_of key bitcoin main_net) c' ≡ returns (c'', no_reply))
    × (get_active_node_id_by_public_key key bitcoin main_net c'' ≡ returns 0)
    × (get_node_id_by_public_key key bitcoin main_net c'' ≡ returns 6)
    × (get_node_settings_by_node_id 6 c''
        ≡ returns (record {
          node_id = 6;
          chain = bitcoin;
          network = main_net;
          public_key = key;
          name = none;
          status = active;
        }))
inactivate-settings_example =
    inactivate-settings bitcoin main_net key 6 (λ e. cc) (omega arith) 1 empty (omega arith) unnamed
