-- ===== src/Client/Starts.antt =====
-- What NewClient in client.go makes of the answer of the authority.
use ifrit.Prelude.{
  false, not, ◌&&◌, ℕ, ◌+◌, ◌^◌, ◌<◌, ◌≤◌, true, some, List, [], ◌∷◌, inl, Bytes, bytes_eq, length,
  ◌==◌, if◌then◌else◌, ◌≡◌, refl,
}
use ifrit.Discovery.Ring.Invariant.{IsCollisionFree}
use ifrit.Discovery.View.{View, new_view, exists, is_alive}
use ifrit.Discovery.View.Live.{LiveInv}
use ifrit.Core.Lifecycle.Startup.{new_node-LiveInv}
use ifrit.Comm.CryptoUnit.{CryptoUnit}
use ifrit.NetUtil.{listen_udp, name_first, head}
use ifrit.NetUtil.Free.{FirstFree, get_listener_at}
use ifrit.Client.{
  Client, Config, Platform, cert_manager, crypto_unit, client_of, with_sockets, new_client,
}

-- When the configuration is read, the name of this host resolves, the UDP socket is made, one of
-- the 101 ports from the given one on is free, the crypto unit with the addresses of the given
-- ports is made or loaded with at most 32 rings and with certificates that fit on a ring, `NewComm`
-- and `NewView` return no error, and no two byte strings have the same hash, NewClient returns a
-- client whose view has the invariant of the live peers and holds every peer that it knows for
-- alive.
pub new_client-LiveInv :
    (pf : Platform) (config : Config) (name addr : Bytes) (addrs : List Bytes) (cu : CryptoUnit)
    (v : View) (n tcp udp : ℕ)
    → pf.config_read ≡ true
    → pf.host.name ≡ some name
    → pf.host.lookup_host name ≡ some (addr ∷ addrs)
    → pf.udp_resolves ≡ true
    → pf.udp_listens ≡ some udp
    → n < 101
    → FirstFree pf.listens config.tcp_port n tcp
    → crypto_unit pf config (
        pf.host.full_addr
          (if length config.hostname == 0 then addr else config.hostname)
          config.tcp_port
        ∷ pf.host.full_addr
            (if length config.hostname == 0 then addr else config.hostname)
            config.udp_port
        ∷ [])
      ≡ some (inl cu)
    → pf.comm_ok cu ≡ true
    → new_view
        (pf.services cu).marshal_note
        (pf.services cu).sign
        (pf.services cu).sha256
        pf.node_config.dead_timeout
        cu.num_rings
        (some cu.self)
      ≡ inl v
    → IsCollisionFree (pf.services cu).sha256
    → cu.num_rings ≤ 32
    → length cu.known_certs + 1 < 2 ^ 32
    → (c : Client) × (new_client pf (some config) ≡ some (inl c))
      × LiveInv (pf.services cu).sha256 c.node.view
      × ((id : Bytes) → (exists c.node.view id && not (is_alive c.node.view id)) ≡ false)
unfolding new_client listen_udp name_first head with_sockets client_of cert_manager
new_client-LiveInv pf config name addr addrs cu v n tcp udp read named found resolves listens k free
      unit comm view_made collision_free few fits =
    let (node, pings, made, inv, _, _, live) =
      new_node-LiveInv (pf.services cu) (cert_manager cu) pf.node_config v collision_free few fits
        view_made in
    let one =
      get_listener_at pf.host pf.listens config.hostname config.tcp_port n tcp name addr addrs named
        found k free in
    (
      record { node = node },
      rw (new_client, read, listen_udp, named, found, resolves, listens, one, unit, comm, made)
          refl,
      inv,
      live,
    )
