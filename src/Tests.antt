-- ===== src/Tests.antt =====
-- Runs of the model on small inputs.
mod Rings
mod Views
mod Nodes
mod Live
mod Authority
mod Start
mod Runs
mod Failures
mod Orders
mod Clients
use ifrit.Prelude.{ℕ, Option, none, some, List, [], ◌∷◌, Bytes}
use ifrit.Discovery.Types.{Certificate, PeerRef}
use ifrit.Discovery.Peer.{PeerState, Heap}

-- A hash without collisions.
abbrev pub plain : Bytes → Bytes
plain b = b

abbrev pub certificate : Bytes → Certificate
certificate id = record {
  raw = id;
  locality = (7 ∷ []) ∷ (8 ∷ []) ∷ [];
  subject_key_id = id;
  public_key = some (9 ∷ []);
  extensions = [];
}

abbrev pub peer_of : ℕ → PeerRef
peer_of n = record {
  id = n ∷ [];
  addr = n ∷ [];
  ping_addr = n ∷ [];
  http_addr = [];
  cert = certificate (n ∷ []);
  public_key = n ∷ [];
}

abbrev pub blank : PeerState
blank = record { note = none; accusations = (1, none) ∷ []; n_ping = 0 }

abbrev pub empty_heap : Heap
empty_heap id = blank
