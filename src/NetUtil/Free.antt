-- ===== src/NetUtil/Free.antt =====
-- Which port the loops of netutil/netutil.go find.
use ifrit.Prelude.{
  Bool-cases, ℕ, zero, suc, ◌+◌, ◌<◌, ◌≤◌, ◌⊎◌, inl, inr, Option, none, some, List, ◌∷◌, Bytes,
  length, if◌then◌else◌, ◌≡◌, refl, arith, subst, ◌==◌,
}
use ifrit.NetUtil.{
  NetError, Host, listen_loop, listen_on_port, listener_loop, name_first, head, get_listener,
}

-- The port `start + n` is the first one from `start` on that can be listened on, and the listener has
-- the port `port`.
pub record FirstFree (listen : ℕ → Option ℕ) (start n port : ℕ) : Type 0 where
  pub free : listen (start + n) ≡ some port
  pub taken : (i : ℕ) → i < n → listen (start + i) ≡ none

-- What package net says of ports: a listener has the port that was asked for, when that is not 0.
abbrev pub Asked : (ℕ → Option ℕ) → Type 0
Asked listen = (asked port : ℕ) → 1 ≤ asked → listen asked ≡ some port → port ≡ asked

at_start :
    (listen : ℕ → Option ℕ) (start port : ℕ)
    → FirstFree listen start zero port
    → listen start ≡ some port
at_start listen start port f = subst (λ p. listen p ≡ some port) (omega arith) f.free

not_at_start :
    (listen : ℕ → Option ℕ) (start n port : ℕ)
    → FirstFree listen start (suc n) port
    → listen start ≡ none
not_at_start listen start n port f =
    subst (λ p. listen p ≡ none) (omega arith) (f.taken zero (omega arith))

later :
    (listen : ℕ → Option ℕ) (start n port : ℕ)
    → FirstFree listen start (suc n) port
    → FirstFree listen (start + 1) n port
later listen start n port f = record {
  free = subst (λ p. listen p ≡ some port) (omega arith) f.free;
  taken = λ i h. subst (λ p. listen p ≡ none) (omega arith) (f.taken (suc i) (omega (arith, h)));
}

-- No port is free among `n` from `start` on.
pub NoneFree : (ℕ → Option ℕ) → ℕ → ℕ → Type 0
NoneFree listen start n = (i : ℕ) → i < n → listen (start + i) ≡ none

none_at_start :
    (listen : ℕ → Option ℕ) (start n : ℕ) → NoneFree listen start (suc n) → listen start ≡ none
unfolding NoneFree
none_at_start listen start n f = subst (λ p. listen p ≡ none) (omega arith) (f zero (omega arith))

none_later :
    (listen : ℕ → Option ℕ) (start n : ℕ)
    → NoneFree listen start (suc n)
    → NoneFree listen (start + 1) n
unfolding NoneFree
none_later listen start n f i h =
    subst (λ p. listen p ≡ none) (omega arith) (f (suc i) (omega (arith, h)))

listen_loop_first :
    (listen : ℕ → Option ℕ) (base n fuel start port : ℕ)
    → start + fuel ≡ base + 102
    → n < fuel
    → FirstFree listen start n port
    → listen_loop listen base fuel start ≡ some port
unfolding listen_loop
listen_loop_first listen base n zero start port h k f = absurd (omega (arith, k))
listen_loop_first listen base zero (suc fuel) start port h k f =
    ground (arith, at_start listen start port f)
listen_loop_first listen base (suc n) (suc fuel) start port h k f = ground (
  arith,
  not_at_start listen start n port f,
  listen_loop_first listen base n fuel (start + 1) port (omega (arith, h)) (omega (arith, k))
      (later listen start n port f),
)

listen_loop-none :
    (listen : ℕ → Option ℕ) (port fuel start : ℕ)
    → NoneFree listen start fuel
    → listen_loop listen port fuel start ≡ none
unfolding listen_loop
listen_loop-none listen port zero start f = refl
listen_loop-none listen port (suc fuel) start f = ground (
  arith,
  none_at_start listen start fuel f,
  listen_loop-none listen port fuel (start + 1) (none_later listen start fuel f),
)

listener_loop_first :
    (listen : ℕ → Option ℕ) (n fuel attempts start port : ℕ)
    → attempts + fuel ≡ 101
    → n < fuel
    → FirstFree listen start n port
    → listener_loop listen fuel attempts start ≡ some port
unfolding listener_loop
listener_loop_first listen n zero attempts start port h k f = absurd (omega (arith, k))
listener_loop_first listen zero (suc fuel) attempts start port h k f =
    ground (arith, at_start listen start port f)
listener_loop_first listen (suc n) (suc fuel) attempts start port h k f = ground (
  arith,
  not_at_start listen start n port f,
  listener_loop_first listen n fuel (attempts + 1) (start + 1) port (omega (arith, h))
      (omega (arith, k)) (later listen start n port f),
)

listener_loop-none :
    (listen : ℕ → Option ℕ) (fuel attempts start : ℕ)
    → NoneFree listen start fuel
    → listener_loop listen fuel attempts start ≡ none
unfolding listener_loop
listener_loop-none listen zero attempts start f = refl
listener_loop-none listen (suc fuel) attempts start f = ground (
  arith,
  none_at_start listen start fuel f,
  listener_loop-none listen fuel (attempts + 1) (start + 1) (none_later listen start fuel f),
)

port_of_turn :
    (listen : ℕ → Option ℕ) (start n port : ℕ)
    → Asked listen
    → FirstFree listen start n port
    → (start + n ≡ 0) ⊎ (port ≡ start + n)
port_of_turn listen start n port asked f = elim (Bool-cases (start + n == 0)) [
  | inl h ↦ inl (ground arith)
  | inr h ↦ inr (asked (start + n) port (ground arith) f.free)
]

-- ListenOnPort returns a listener on the first free port, when that is one of the 102 from the
-- given port on, and an error when none of these is free.
pub listen_on_port_first :
    (listen : ℕ → Option ℕ) (base : ℕ)
    → ((n port : ℕ)
        → n < 102
        → FirstFree listen base n port
        → listen_on_port listen base ≡ some port)
      × (NoneFree listen base 102 → listen_on_port listen base ≡ none)
unfolding listen_on_port
listen_on_port_first listen base = (
  λ n port k f. listen_loop_first listen base n 102 base port refl k f,
  λ f. listen_loop-none listen base 102 base f,
)

-- The listener is that on the first port, whatever port it then has.
pub get_listener_at :
    (host : Host) (listen : ℕ → Option ℕ) (hostname : Bytes) (portnum n port : ℕ)
    (name addr : Bytes) (addrs : List Bytes)
    → host.name ≡ some name
    → host.lookup_host name ≡ some (addr ∷ addrs)
    → n < 101
    → FirstFree listen portnum n port
    → get_listener host listen hostname portnum
      ≡ some (
        some port,
        host.full_addr (if length hostname == 0 then addr else hostname) portnum,
        none,
      )
unfolding get_listener name_first head
get_listener_at host listen hostname portnum n port name addr addrs named found k f =
    rw (get_listener, named, found, listener_loop_first listen n 101 0 portnum port refl k f) refl

-- When the name of this host resolves and the first port from the given port on that can be listened
-- on is one of 101, GetListener returns the listener on that port without an error. The port of the
-- listener is then the one of the turn, unless that is 0, for which the system chooses; package net
-- is taken to give any other port as it is asked for. The address that GetListener returns names the
-- given port in every case, also where the listener has another one.
pub get_listener_first :
    (host : Host) (listen : ℕ → Option ℕ) (hostname : Bytes) (portnum n port : ℕ)
    (name addr : Bytes) (addrs : List Bytes)
    → host.name ≡ some name
    → host.lookup_host name ≡ some (addr ∷ addrs)
    → n < 101
    → Asked listen
    → FirstFree listen portnum n port
    → (get_listener host listen hostname portnum
        ≡ some (
          some port,
          host.full_addr (if length hostname == 0 then addr else hostname) portnum,
          none,
        ))
      × ((portnum + n ≡ 0) ⊎ (port ≡ portnum + n))
get_listener_first host listen hostname portnum n port name addr addrs named found k asked f = (
  get_listener_at host listen hostname portnum n port name addr addrs named found k f,
  port_of_turn listen portnum n port asked f,
)

-- When the name of this host resolves and none of 101 ports from the given port on is free,
-- GetListener returns an error.
pub get_listener-none :
    (host : Host) (listen : ℕ → Option ℕ) (hostname : Bytes) (portnum : ℕ) (name addr : Bytes)
    (addrs : List Bytes)
    → host.name ≡ some name
    → host.lookup_host name ≡ some (addr ∷ addrs)
    → NoneFree listen portnum 101
    → get_listener host listen hostname portnum
      ≡ some (
        none,
        host.full_addr (if length hostname == 0 then addr else hostname) portnum,
        some NetError.found_no_port,
      )
unfolding get_listener name_first head
get_listener-none host listen hostname portnum name addr addrs named found f =
    rw (get_listener, named, found, listener_loop-none listen 101 0 portnum f) refl
