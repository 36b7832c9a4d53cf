-- ===== src/Comm/Connections.antt =====
-- comm/client.go: the connections of a node to other nodes. A connection is the number under which
-- it was dialed; what gRPC answers is an argument.
pub mod Open
use ifrit.Prelude.{
  ℕ, zero, suc, Bool, true, false, Option, none, some, List, [], ◌∷◌, Bytes, bytes_eq,
  if◌then◌else◌, ◌≡◌,
}
use ifrit.Prelude.GoMap.{lookup, insert, delete}

-- `next` is the number of the next connection, `closed` the closed ones, latest first.
pub record GrpcClient : Type 0 where
  pub all_connections : List (Bytes × ℕ)
  pub next : ℕ
  pub closed : List ℕ

-- `configured`: the TLS configuration is not nil.
unfoldable pub new_client : Bool → Option GrpcClient
new_client configured =
    if configured then some (record { all_connections = []; next = 0; closed = [] }) else none

unfoldable pub get_connection : GrpcClient → Bytes → Option ℕ
get_connection c addr = lookup addr c.all_connections

-- Under the lock; `dialed` is whether `grpc.Dial` returns no error.
unfoldable pub dial : GrpcClient → Bytes → Bool → GrpcClient × Option ℕ
dial c addr dialed = elim (lookup addr c.all_connections) [
  | some conn ↦ (c, some conn)
  | none ↦
      if dialed
      then (
        record c { all_connections = insert addr c.next c.all_connections; next = suc c.next },
        some c.next,
      )
      else (c, none)
]

unfoldable pub connection : GrpcClient → Bytes → Bool → GrpcClient × Option ℕ
connection c addr dialed = elim (get_connection c addr) [
  | some conn ↦ (c, some conn)
  | none ↦ dial c addr dialed
]

-- Under the lock.
unfoldable pub close_conn : GrpcClient → Bytes → GrpcClient
close_conn c addr = elim (lookup addr c.all_connections) [
  | none ↦ c
  | some conn ↦ record c {
    all_connections = delete addr c.all_connections;
    closed = conn ∷ c.closed;
  }
]

-- Gossip and Send: an error of the connection or of the call is `none`.
unfoldable pub call {ℓ κ} :
    {A : Type ℓ} {B : Type κ}
    → (ℕ → A → Option B)
    → GrpcClient
    → Bytes
    → Bool
    → A
    → GrpcClient × Option B
call rpc c addr dialed args =
    let (c', conn) = connection c addr dialed in
    elim conn [ none ↦ (c', none) | some i ↦ (c', rpc i args) ]

-- What other goroutines do between the two locks of `connection` and after it.
pub data Used : GrpcClient → Type 0 where
  start : (c : GrpcClient) → new_client true ≡ some c → Used c
  dials : (c : GrpcClient) (addr : Bytes) (dialed : Bool) → Used c → Used (dial c addr dialed).0
  closes : (c : GrpcClient) (addr : Bytes) → Used c → Used (close_conn c addr)
