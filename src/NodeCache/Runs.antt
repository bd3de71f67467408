-- ===== src/NodeCache/Runs.antt =====
-- The loop of `ManagedNodeCache` keeps its maps consistent (pkg/commons/managedNode.go).
use torq.Prelude.{◌≡◌, List, [], ◌∷◌, subst}
use torq.Runtime.{Outcome, returns, panics, blocks, OnReturn, ◌>>=◌}
use torq.NodeCache.Types.{Message, Reply, Cache}
use torq.NodeCache.Process.{process, run, empty}
use torq.NodeCache.Consistent.{IsConsistent, dispatch-ok, empty-ok}

abbrev RunKeeps : Outcome (Cache × List Reply) → Type 0
RunKeeps o = OnReturn (λ r. IsConsistent r.0) o

-- The rest of a run behind one message.
then-ok :
    (o : Outcome (Cache × Reply)) (l : List Message)
    → OnReturn (λ r. IsConsistent r.0) o
    → ((c : Cache) → IsConsistent c → RunKeeps (run l c))
    → RunKeeps (o >>= λ r. run l r.0 >>= λ q. returns (q.0, r.1 ∷ q.1))
then-ok panics l h rest = tt
then-ok blocks l h rest = tt
then-ok (returns (c, r)) l h rest = last (run l c) (rest c h)
  where
    last :
        (o : Outcome (Cache × List Reply))
        → RunKeeps o
        → RunKeeps (o >>= λ q. returns (q.0, r ∷ q.1))
    last (returns q) g = g
    last panics g = tt
    last blocks g = tt

run-keeps : (l : List Message) (c : Cache) → IsConsistent c → RunKeeps (run l c)
unfolding run process
run-keeps [] c h = h
run-keeps (m ∷ l) c h = then-ok _ l (dispatch-ok m c h m.operation) (run-keeps l)

-- After every sequence of messages that the node cache handles, the active Torq nodes are among all
-- Torq nodes, these are among all nodes with channels, and so are the nodes with active channels,
-- each by chain, network and public key.
pub run-IsConsistent_nodes :
    (l : List Message) (c : Cache) (replies : List Reply)
    → run l empty ≡ returns (c, replies)
    → IsConsistent c
run-IsConsistent_nodes l c replies h = subst RunKeeps h (run-keeps l empty empty-ok)
