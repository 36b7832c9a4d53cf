-- ===== src/NetUtil.antt =====
-- netutil/netutil.go: the search for a free port. Listening, host names and the printing of
-- addresses are arguments; a listener is its port.
pub mod Free
use ifrit.Prelude.{
  ℕ, zero, suc, ◌+◌, Bool, Option, none, some, List, [], ◌∷◌, ◌⊎◌, inl, inr, Bytes, length, ltb,
  ◌==◌, if◌then◌else◌, ◌>>=◌,
}

pub data NetError : Type 0 where
  found_no_port no_addr no_host_name lookup_failed resolve_failed listen_failed : NetError

-- `listen` gives for each attempt the port that the system chose. The loop ends at 101 attempts.
unfoldable pub open_port_loop : (ℕ → Option ℕ) → ℕ → ℕ → ℕ
open_port_loop listen zero attempts = 0
open_port_loop listen (suc fuel) attempts =
    let rest = open_port_loop listen fuel (attempts + 1) in
    elim (listen attempts) [ some port ↦ port | none ↦ if ltb 100 (attempts + 1) then 0 else rest ]

unfoldable pub get_open_port : (ℕ → Option ℕ) → ℕ
get_open_port listen = open_port_loop listen 101 0

-- `listen` gives for the port that is asked for the port of the listener: port 0 lets the system
-- choose one. `none` is an error.
unfoldable pub listen_loop : (ℕ → Option ℕ) → ℕ → ℕ → ℕ → Option ℕ
listen_loop listen port zero start_port = none
listen_loop listen port (suc fuel) start_port =
    let rest = listen_loop listen port fuel (start_port + 1) in
    elim (listen start_port) [
      | some chosen ↦ some chosen
      | none ↦ if ltb (port + 100) start_port then none else rest
    ]

-- `none` is `errFoundNoPort`.
unfoldable pub listen_on_port : (ℕ → Option ℕ) → ℕ → Option ℕ
listen_on_port listen port = listen_loop listen port 102 port

unfoldable pub listener_loop : (ℕ → Option ℕ) → ℕ → ℕ → ℕ → Option ℕ
listener_loop listen zero attempts portnum = none
listener_loop listen (suc fuel) attempts portnum =
    let rest = listener_loop listen fuel (attempts + 1) (portnum + 1) in
    elim (listen portnum) [
      | some chosen ↦ some chosen
      | none ↦ if ltb 100 (attempts + 1) then none else rest
    ]

-- The addresses of this host, with a name, when there is one, in place of the first one: a panic
-- for an empty list.
unfoldable pub name_first : Bytes → List Bytes → Option (List Bytes)
name_first hostname [] = if length hostname == 0 then some [] else none
name_first hostname (addr ∷ addrs) =
    some ((if length hostname == 0 then addr else hostname) ∷ addrs)

-- `addr[0]`.
unfoldable pub head : List Bytes → Option Bytes
head [] = none
head (addr ∷ addrs) = some addr

-- `os.Hostname` and `net.LookupHost`.
pub record Host : Type 0 where
  pub name : Option Bytes
  pub lookup_host : Bytes → Option (List Bytes)
  pub lookup_ip : Bytes → Option (List Bytes)
  pub full_addr : Bytes → ℕ → Bytes

-- The port of the listener, `none` for nil, the address and the error.
unfoldable pub get_listener :
    Host → (ℕ → Option ℕ) → Bytes → ℕ → Option (Option ℕ × Bytes × Option NetError)
get_listener host listen hostname portnum = elim host.name [
  | none ↦ some (none, [], some no_host_name)
  | some h ↦ elim (host.lookup_host h) [
    | none ↦ some (none, [], some lookup_failed)
    | some addrs ↦ elim (name_first hostname addrs >>= head) [
      | none ↦ none
      | some addr ↦ elim (listener_loop listen 101 0 portnum) [
        | some port ↦ some (some port, host.full_addr addr portnum, none)
        | none ↦ some (none, host.full_addr addr portnum, some found_no_port)
      ]
    ]
  ]
]

-- The error of `os.Hostname` is not read: the name is empty then.
unfoldable pub get_local_ip : Host → Bytes
get_local_ip host = elim (host.lookup_host (elim host.name [ none ↦ [] | some h ↦ h ])) [
  | none ↦ []
  | some [] ↦ []
  | some (addr ∷ addrs) ↦ addr
]

unfoldable pub local_ip : Host → Bytes ⊎ NetError
local_ip host = elim (host.lookup_ip (elim host.name [ none ↦ [] | some h ↦ h ])) [
  | none ↦ inr lookup_failed
  | some [] ↦ inr no_addr
  | some (addr ∷ addrs) ↦ inl addr
]

-- `resolve` is whether ResolveUDPAddr returns no error, and `listen` the port of the socket, none for
-- an error.
unfoldable pub listen_udp :
    Host → Bool → Option ℕ → Bytes → ℕ → Option (Option ℕ × Bytes × Option NetError)
listen_udp host resolve listen hostname portnum =
    elim (host.lookup_host (elim host.name [ none ↦ [] | some h ↦ h ])) [
      | none ↦ some (none, [], some lookup_failed)
      | some addrs ↦ elim (name_first hostname addrs) [
        | none ↦ none
        | some named ↦
            if resolve
            then elim listen [
              | none ↦ some (none, [], some listen_failed)
              | some chosen ↦ (do
                addr ← head named
                some (some chosen, host.full_addr addr portnum, none))
            ]
            else some (none, [], some resolve_failed)
      ]
    ]
