-- ===== src/Core/Run.antt =====
-- core/node.go: all that happens to the state of a node, as a step for each event. `none` is a panic.
pub mod Taught
pub mod Total
use ifrit.Prelude.{
  ℕ, ◌+◌, ◌≤◌, ◌<◌, ◌^◌, Option, none, some, List, [], ◌∷◌, inl, Bytes, length, ◌≡◌, ◌>>=◌,
}
use ifrit.Discovery.Types.{Certificate}
use ifrit.Discovery.View.{check_timeouts}
use ifrit.Core.Node.{Services, Node, PbState, StateResponse, Pong}
use ifrit.Core.Spread.{spread, gossip}
use ifrit.Core.Detector.{monitor}
use ifrit.Core.Lifecycle.{NodeConfig, CertManager, new_node, start}

-- SetExternalGossipContent and SetGossipHandler of core/mutators.go.
unfoldable pub set_external_gossip_content : Node → Option Bytes → Node
set_external_gossip_content n content = record n { external_gossip = content }

unfoldable pub set_gossip_handler : Node → Option (Bytes → Option Bytes) → Node
set_gossip_handler n handler = record n { gossip_handler = handler }

-- A call of the gossip server with the certificate of its connection; a turn of the two loops of the
-- protocol, with the time and the answers of the network; the start; a tick of the view; the setters.
pub data Event : Type 0 where
  spreads : Option Certificate → PbState → Event
  gossips : ℕ → List (Option StateResponse) → Event
  monitors : ℕ → List (Option Pong) → Event
  starts : ℕ → List Bytes → List (Option StateResponse) → Event
  ticks : ℕ → Event
  sets_gossip : Option Bytes → Event
  sets_handler : Option (Bytes → Option Bytes) → Event

unfoldable pub step : Services → Node → Event → Option Node
step sv n (spreads cert args) = do (n', reply) ← spread sv n cert args; some n'
step sv n (gossips now replies) = gossip sv now n replies
step sv n (monitors now answers) = monitor sv now n answers
step sv n (starts now addrs replies) = start sv now n addrs replies
step sv n (ticks now) = do v ← check_timeouts now n.view; some (record n { view = v })
step sv n (sets_gossip content) = some (set_external_gossip_content n content)
step sv n (sets_handler handler) = some (set_gossip_handler n handler)

-- The certificates in replies, and those that an event brings.
abbrev pub certificates_in : List (Option StateResponse) → ℕ
certificates_in [] = 0
certificates_in (none ∷ rest) = certificates_in rest
certificates_in (some reply ∷ rest) = length reply.certificates + certificates_in rest

abbrev pub certificates : Event → ℕ
certificates (spreads cert args) = 1
certificates (gossips now replies) = certificates_in replies
certificates (starts now addrs replies) = certificates_in replies
certificates _ = 0

-- With the certificates of the event, a ring cannot have 2 ^ 32 entries.
abbrev pub Fits : Node → Event → Type 0
Fits n e = length n.view.view_map + certificates e + 2 < 2 ^ 32

-- The nodes that come out of `NewNode` and any events.
pub data Reachable (sv : Services) : Node → Type 0 where
  begun :
      (cm : CertManager) (config : NodeConfig) (n : Node) (pings : ℕ)
      → cm.num_rings ≤ 32
      → length cm.contact_list + 2 < 2 ^ 32
      → new_node sv cm config ≡ some (inl (n, pings))
      → Reachable sv n
  later :
      (n n' : Node) (e : Event)
      → Reachable sv n
      → Fits n e
      → step sv n e ≡ some n'
      → Reachable sv n'
