-- ===== src/Comm/CryptoUnit.antt =====
-- comm/crypto_unit.go: the keys and certificates of a node, asked from the authority or signed by
-- the node itself. `none` is a panic. Keys, hashes, http and x509 are `Services`.
pub mod Files
pub mod Issued
use ifrit.Prelude.{
  ℕ, Bool, true, false, Option, none, some, List, [], ◌∷◌, ◌++◌, ◌⊎◌, inl, inr, Bytes, length, ltb,
  ◌==◌, get_or, bytes_beq, if◌then◌else◌, ◌>>=◌,
}
use ifrit.LittleEndian.{uint32}
use ifrit.Discovery.Types.{Certificate}
use ifrit.Cauth.{Template, ring_number_oid, ring_extension}
use ifrit.Cauth.Signing.{Response, before_colon}

pub data CryptoError : Type 0 where
  no_ring_num no_host_ip no_addrs invalid_path pem_decode no_config : CryptoError
  key_failed request_failed post_failed json_failed parse_failed serial_failed : CryptoError
  lookup_failed create_failed read_failed glob_failed no_hits more_than_one : CryptoError

pub record CryptoUnit : Type 0 where
  pub priv : Bytes
  pub pk : List Bytes
  pub ca_addr : Bytes
  pub path : Bytes
  pub self : Certificate
  pub ca : Option Certificate
  pub num_rings : ℕ
  pub known_certs : List Certificate
  pub trusted : Bool

-- Of the identity, a `pkix.Name`, the code reads the locality.
pub record CryptoUnitConfig : Type 0 where
  pub identity : List Bytes
  pub ca_addr : Bytes
  pub dns_names : List Bytes
  pub path : Bytes

pub record CertSet : Type 0 where
  pub own_cert : Certificate
  pub ca_cert : Option Certificate
  pub known_certs : List Certificate
  pub trusted : Bool

-- An error is `none`. `decode_json` gives the fields of `certResponse`.
pub record CryptoServices : Type 0 where
  pub gen_key : Option Bytes
  pub gen_serial : Option ℕ
  pub random_id : Bytes
  pub request_url : Bytes → Bytes
  pub create_request : List Bytes → List Bytes → Bytes → Option Bytes
  pub post : Bytes → Bytes → Option Bytes
  pub decode_json : Bytes → Option Response
  pub parse_certificate : Bytes → Option Certificate
  pub lookup_ip : Bytes → Option (List Bytes)
  pub parse_ip : Bytes → Option Bytes
  pub public_of : Bytes → Bytes
  pub self_sign : Template → Bytes → Option Bytes
  pub sha256 : Bytes → Bytes
  pub ecdsa_verify : Bytes → Bytes → ℕ → ℕ → Bool
  pub ecdsa_sign : Bytes → Bytes → Option (ℕ × ℕ)
  pub set_bytes : Bytes → ℕ
  pub to_bytes : ℕ → Bytes

unfoldable pub verify : CryptoServices → Bytes → Bytes → Bytes → Option Bytes → Bool
verify sv content r s none = false
verify sv content r s (some key) =
    sv.ecdsa_verify key (sv.sha256 content) (sv.set_bytes r) (sv.set_bytes s)

unfoldable pub sign : CryptoServices → CryptoUnit → Bytes → Option (Bytes × Bytes)
sign sv cu content = do
  (r, s) ← sv.ecdsa_sign cu.priv (sv.sha256 content)
  some (sv.to_bytes r, sv.to_bytes s)

-- The loop over the known certificates of the answer.
unfoldable pub parse_all : (Bytes → Option Certificate) → List Bytes → Option (List Certificate)
parse_all parse [] = some []
parse_all parse (b ∷ l) = do c ← parse b; rest ← parse_all parse l; some (c ∷ rest)

-- From the answer on.
unfoldable pub read_response : CryptoServices → Response → CertSet ⊎ CryptoError
read_response sv certs = elim (sv.parse_certificate certs.own_cert) [
  | none ↦ inr parse_failed
  | some own ↦ elim (sv.parse_certificate certs.ca_cert) [
    | none ↦ inr parse_failed
    | some ca ↦ elim (parse_all sv.parse_certificate certs.known_certs) [
      | none ↦ inr parse_failed
      | some known ↦ inl (record {
        own_cert = own;
        ca_cert = some ca;
        known_certs = known;
        trusted = certs.trusted;
      })
    ]
  ]
]

unfoldable pub send_cert_request :
    CryptoServices → Bytes → Bytes → List Bytes → List Bytes → CertSet ⊎ CryptoError
send_cert_request sv key url identity dns_names = elim (sv.create_request identity dns_names key) [
  | none ↦ inr request_failed
  | some request ↦ elim (sv.post url request) [
    | none ↦ inr post_failed
    | some body ↦ elim (sv.decode_json body) [
      | none ↦ inr json_failed
      | some certs ↦ read_response sv certs
    ]
  ]
]

unfoldable pub own_template : CryptoServices → Bytes → List Bytes → ℕ → Bytes → Template
own_template sv key identity serial ip = record {
  serial_number = serial;
  subject_key_id = sv.random_id;
  locality = identity;
  extra_extensions = ring_extension 32 ∷ [];
  public_key = some (sv.public_of key);
  ip_addresses = ip ∷ [];
  dns_names = [];
  is_ca = true;
}

-- From the template on.
unfoldable pub self_signed : CryptoServices → Bytes → Template → CertSet ⊎ CryptoError
self_signed sv key template = elim (sv.self_sign template key) [
  | none ↦ inr create_failed
  | some raw ↦ elim (sv.parse_certificate raw) [
    | none ↦ inr parse_failed
    | some cert ↦
        inl (record { own_cert = cert; ca_cert = none; known_certs = []; trusted = false })
  ]
]

-- The locality has an element, and `strings.Split` gives one; no address for a host is a panic.
unfoldable pub self_signed_cert :
    CryptoServices → Bytes → List Bytes → Option (CertSet ⊎ CryptoError)
self_signed_cert sv key identity = elim sv.gen_serial [
  | none ↦ some (inr serial_failed)
  | some serial ↦ elim (sv.lookup_ip (before_colon (get_or identity 0 []))) [
    | none ↦ some (inr lookup_failed)
    | some [] ↦ none
    | some (service_ip ∷ ips) ↦ elim (sv.parse_ip service_ip) [
      | none ↦ some (inr no_host_ip)
      | some ip ↦ some (self_signed sv key (own_template sv key identity serial ip))
    ]
  ]
]

-- The loop over the extensions: the last one with the ring number counts.
unfoldable pub last_ring_value : Option Bytes → List (List ℕ × Bytes) → Option Bytes
last_ring_value ext_value [] = ext_value
last_ring_value ext_value ((oid, value) ∷ rest) =
    let seen = if bytes_beq oid ring_number_oid then some value else ext_value in
    last_ring_value seen rest

-- From the set of certificates on.
unfoldable pub unit_of :
    CertSet → Bytes → List Bytes → Bytes → Bytes → Option (CryptoUnit ⊎ CryptoError)
unit_of certs key identity ca_addr path = elim (last_ring_value none certs.own_cert.extensions) [
  | none ↦ some (inr no_ring_num)
  | some value ↦ (do
    num_rings ← uint32 value
    some (
        inl (record {
          priv = key;
          pk = identity;
          ca_addr = ca_addr;
          path = path;
          self = certs.own_cert;
          ca = certs.ca_cert;
          num_rings = num_rings;
          known_certs = certs.known_certs;
          trusted = certs.trusted;
        })))
]

unfoldable pub cert_set : CryptoServices → Bytes → CryptoUnitConfig → Option (CertSet ⊎ CryptoError)
cert_set sv key config =
    if length config.ca_addr == 0
    then self_signed_cert sv key config.identity
    else some
        (send_cert_request sv key (sv.request_url config.ca_addr) config.identity config.dns_names)

unfoldable pub new_cu : CryptoServices → Option CryptoUnitConfig → Option (CryptoUnit ⊎ CryptoError)
new_cu sv none = some (inr no_config)
new_cu sv (some config) =
    if ltb (length config.identity) 2 then some (inr no_addrs) else elim sv.gen_key [
      | none ↦ some (inr key_failed)
      | some key ↦ (do
        certs ← cert_set sv key config
        elim certs [
          | inr e ↦ some (inr e)
          | inl set ↦ unit_of set key config.identity config.ca_addr config.path
        ])
    ]
