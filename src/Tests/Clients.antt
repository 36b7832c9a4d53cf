-- ===== src/Tests/Clients.antt =====
-- client.go: a client with a stored crypto unit for three rings.
use ifrit.Prelude.{
  if◌then◌else◌, not, ◌&&◌, false, Bytes, ◌≡◌, refl, true, false, none, some, [], ◌∷◌, inl, Bytes,
  bytes_eq, bytes_beq, ltb, arith,
}
use ifrit.LittleEndian.{uint32}
use ifrit.Discovery.Types.{Certificate}
use ifrit.Discovery.Peer.{new_peer}
use ifrit.Discovery.Rings.{create_rings}
use ifrit.Discovery.View.{View, new_view, sign_local_note, signed, exists, is_alive}
use ifrit.Discovery.View.Live.{LiveInv}
use ifrit.Comm.CryptoUnit.{CryptoUnit, CryptoServices, unit_of, last_ring_value}
use ifrit.Comm.CryptoUnit.Files.{
  Disk, present, load_cu, load_cert_set, load_peers, load_known, load_cert, load_ca_cert,
  load_priv_key,
}
use ifrit.Cauth.{holds}
use ifrit.NetUtil.Free.{FirstFree}
use ifrit.Client
use ifrit.Client.{Client, Config, Platform, crypto_unit}
use ifrit.Client.Starts.{new_client-LiveInv}
use ifrit.Tests.{plain, certificate}
use ifrit.Tests.Live.{no_collision}
use ifrit.Tests.Start.{services, node_config, made_view, nothing, host}

abbrev certificate3 : Certificate
certificate3 = record (certificate (2 ∷ [])) {
  extensions = (2 ∷ 5 ∷ 13 ∷ 37 ∷ [], 3 ∷ 0 ∷ 0 ∷ 0 ∷ []) ∷ [];
}

abbrev disk : Disk
disk = record {
  stat = λ path. present;
  mkdir_all = λ path. true;
  can_write = λ file. true;
  marshal_key = λ key. some key;
  cert_name = λ path prefix cert. prefix;
  key_name = plain;
  glob = λ path prefix. some (prefix ∷ []);
  read_certificate = λ file. holds certificate3;
  read_key = λ file. holds (4 ∷ []);
}

abbrev crypto : CryptoServices
crypto = record {
  gen_key = none;
  gen_serial = none;
  random_id = [];
  request_url = plain;
  create_request = λ identity dns key. none;
  post = λ url body. none;
  decode_json = λ body. none;
  parse_certificate = λ raw. none;
  lookup_ip = λ a. none;
  parse_ip = λ a. none;
  public_of = plain;
  self_sign = λ t key. none;
  sha256 = plain;
  ecdsa_verify = λ key hash r s. true;
  ecdsa_sign = λ key hash. none;
  set_bytes = λ b. 0;
  to_bytes = λ n. n ∷ [];
}

abbrev platform : Platform
platform = record {
  config_read = true;
  host = host;
  udp_resolves = true;
  udp_listens = some 90;
  listens = λ p. if ltb 80 p then some p else none;
  crypto = crypto;
  disk = disk;
  comm_ok = λ cu. true;
  services = λ cu. services;
  ca_addr = [];
  node_config = node_config;
}

abbrev config : Config
config = record {
  new = false;
  tcp_port = 81;
  udp_port = 90;
  hostname = [];
  crypto_unit_path = 1 ∷ [];
}

abbrev unit3 : CryptoUnit
unit3 = record {
  priv = 4 ∷ [];
  pk = (81 ∷ 2 ∷ []) ∷ (90 ∷ 2 ∷ []) ∷ [];
  ca_addr = [];
  path = 1 ∷ [];
  self = certificate3;
  ca = some certificate3;
  num_rings = 3;
  known_certs = certificate3 ∷ [];
  trusted = true;
}

loaded3 : crypto_unit platform config unit3.pk ≡ some (inl unit3)
unfolding crypto_unit load_cu load_cert_set load_peers load_known load_cert load_ca_cert
    load_priv_key unit_of last_ring_value uint32 bytes_beq
loaded3 = refl

abbrev view4 : View
view4 =
    made_view (new_view services.marshal_note services.sign plain 60 3 (some certificate3)) nothing

made4 : new_view services.marshal_note services.sign plain 60 3 (some certificate3) ≡ inl view4
unfolding new_view new_peer create_rings bytes_beq sign_local_note signed
made4 = refl

free81 : FirstFree platform.listens 81 0 81
free81 = record { free = refl; taken = λ i h. absurd (omega (arith, h)) }

new_client-LiveInv_example :
    (c : Client) × (Client.new_client platform (some config) ≡ some (inl c))
    × LiveInv plain c.node.view
    × ((id : Bytes) → (exists c.node.view id && not (is_alive c.node.view id)) ≡ false)
new_client-LiveInv_example =
    new_client-LiveInv platform config (1 ∷ []) (2 ∷ []) [] unit3 view4 0 81 90 refl refl refl refl
      refl (omega arith) free81 loaded3 refl made4 no_collision (omega arith) (omega arith)
