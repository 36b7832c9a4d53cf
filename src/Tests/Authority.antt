-- ===== src/Tests/Authority.antt =====
-- cauth/cauth.go and comm/crypto_unit.go: a group for two boot nodes with 10 rings. A certificate
-- is its key id and its number of rings.
use mathlib.Core.List.{reverse}
use ifrit.Prelude.{
  ◌==◌, ℕ, ◌+◌, ◌<◌, ◌^◌, ◌≡◌, refl, Bool, true, false, ◌||◌, Option, none, some, List, [], ◌∷◌,
  ◌++◌, take, inl, Bytes, bytes_eq, bytes_beq, ◌=?◌, length, leb, arith, get_or,
}
use ifrit.Prelude.GoMap.{has}
use ifrit.LittleEndian.{put_uint32}
use ifrit.Discovery.Types.{Certificate}
use ifrit.Cauth.{Ca, Group, Template, group_of, ring_number_oid}
use ifrit.Cauth.Boot.{Issued, group_of-Issued}
use ifrit.Cauth.Ids.{gen_id, gen_id_fresh}
use ifrit.Cauth.Groups.{Files, Write, writes}
use ifrit.Cauth.Groups.Written.{matching}
use ifrit.Cauth.Signing.{
  Services, Draws, Request, Response, certificate_signing, before_colon, template_of,
}
use ifrit.Cauth.Signing.Serves.{ring_values, Parsed, Served, certificate_signing-Served}
use ifrit.Comm.CryptoUnit.{CryptoUnitConfig, CryptoServices, new_cu}
use ifrit.Comm.CryptoUnit.Issued.{ParsesBack, new_cu-Served}
use ifrit.Tests.{plain}

-- The bytes of a certificate: the value of its first extension, then the key id.
abbrev first_of : List (List ℕ × Bytes) → Bytes
first_of [] = []
first_of (e ∷ rest) = e.1

abbrev encode : Template → Bytes
encode t = first_of t.extra_extensions ++ t.subject_key_id

abbrev cert_of : Bytes → Bytes → Certificate
cert_of rings id = record {
  raw = rings ++ id;
  locality = [];
  subject_key_id = id;
  public_key = none;
  extensions = (ring_number_oid, rings) ∷ [];
}

abbrev decode : Bytes → Option Certificate
decode (a ∷ b ∷ c ∷ d ∷ id) = some (cert_of (a ∷ b ∷ c ∷ d ∷ []) id)
decode _ = none

abbrev ten : Bytes
ten = 10 ∷ 0 ∷ 0 ∷ 0 ∷ []

ten_rings : put_uint32 10 ≡ ten
unfolding put_uint32
ten_rings = refl

abbrev root : Certificate
root = cert_of ten (1 ∷ 2 ∷ 3 ∷ 4 ∷ 5 ∷ [])

abbrev group2 : Group
group2 = group_of root 2 10

abbrev ca2 : Ca
ca2 = record { path = []; key_file_path = 1 ∷ []; groups = group2 ∷ [] }

abbrev given7 : List (Bytes × Bool)
given7 = (7 ∷ [], true) ∷ []

new8 : has (8 ∷ []) given7 ≡ false
unfolding has bytes_beq
new8 = refl

gen_id_fresh_example :
    (id : Bytes) × (ids' : List (Bytes × Bool)) × (gen_id
        ((none ∷ some (7 ∷ []) ∷ []) ++ (some (8 ∷ []) ∷ []))
        given7
      ≡ some (id, ids'))
    × (has id given7 ≡ false)
    × ((j : Bytes) → has j ids' ≡ ((id =? j) || has j given7))
gen_id_fresh_example = gen_id_fresh (none ∷ some (7 ∷ []) ∷ []) [] (8 ∷ []) given7 new8

abbrev root5 : Certificate
root5 = cert_of (5 ∷ 0 ∷ 0 ∷ 0 ∷ []) (6 ∷ [])

abbrev two_groups : List Group
two_groups = group2 ∷ group_of root5 2 5 ∷ []

-- A file of a group begins with the letter g; the key is a file of the directory.
abbrev begins_g : Bytes → Bool
begins_g [] = false
begins_g (c ∷ rest) = c == 103

abbrev file_name : Certificate → Bytes
file_name cert = 103 ∷ cert.raw

abbrev pem : Bytes → Bytes
pem raw = 45 ∷ raw

abbrev of_pem : Bytes → Option Bytes
of_pem [] = none
of_pem (c ∷ raw) = some raw

abbrev all_write : Bytes → Write
all_write file = writes

abbrev backwards : List Bytes → List Bytes
backwards l = reverse (matching begins_g l)

abbrev directory : Files
directory = (107 ∷ [], 1 ∷ []) ∷ []

abbrev request2 : Request
request2 = record {
  locality = (5 ∷ 58 ∷ 6 ∷ []) ∷ (7 ∷ []) ∷ [];
  dns_names = [];
  public_key = none;
}

abbrev services2 : Services
services2 = record {
  parse_request = λ b. some request2;
  resolve_ip = λ a. some a;
  create_certificate = λ t parent. some (encode t);
  parse_certificate = decode;
}

abbrev draws2 : Draws
draws2 = record { serial = some 3; nonces = some (8 ∷ []) ∷ [] }

free8 : has (8 ∷ []) group2.existing_ids ≡ false
unfolding has group_of
free8 = refl

works2 :
    (id : Bytes)
    → (raw : Bytes) × (cert : Certificate) × (services2.create_certificate
          (template_of request2 3 (5 ∷ []) id group2.num_rings)
          group2.group_cert
        ≡ some raw)
      × (services2.parse_certificate raw ≡ some cert)
      × Parsed (template_of request2 3 (5 ∷ []) id group2.num_rings) raw cert
unfolding template_of put_uint32 group_of ring_values bytes_beq
works2 id = (
  ten ++ id,
  cert_of ten id,
  refl,
  refl,
  record { same_raw = refl; same_id = refl; same_rings = refl },
)

host2 : services2.resolve_ip (before_colon (get_or request2.locality 0 [])) ≡ some (5 ∷ [])
unfolding before_colon
host2 = refl

certificate_signing-Served_example :
    (ca' : Ca) × (g' : Group) × (cert : Certificate) × (resp : Response) × (certificate_signing
        services2 draws2
        (1 ∷ [])
        ca2
      ≡ some (ca', some resp))
    × (ca'.groups ≡ g' ∷ [])
    × Issued g' ([] ++ (cert ∷ []))
    × Served group2 [] cert resp
certificate_signing-Served_example =
    certificate_signing-Served services2 draws2 (1 ∷ []) request2 ca2 group2 [] [] 3 (5 ∷ [])
      (8 ∷ []) [] [] refl (group_of-Issued root 2 10) (omega arith) refl (omega arith) refl host2
      refl free8 works2

-- The answer that a client gets as the first one.
abbrev own : Certificate
own = cert_of ten (8 ∷ [])

abbrev answer2 : Response
answer2 = record {
  own_cert = own.raw;
  known_certs = own.raw ∷ [];
  ca_cert = root.raw;
  trusted = true;
}

served2 : Served group2 [] own answer2
unfolding group_of ring_values bytes_beq put_uint32 has
served2 = record {
  own = refl;
  known = refl;
  authority = refl;
  first = refl;
  fresh = refl;
  rings = refl;
}

abbrev crypto2 : CryptoServices
crypto2 = record {
  gen_key = some (4 ∷ []);
  gen_serial = some 1;
  random_id = 6 ∷ [];
  request_url = plain;
  create_request = λ identity dns key. some key;
  post = λ url body. some body;
  decode_json = λ body. some answer2;
  parse_certificate = decode;
  lookup_ip = λ a. some (a ∷ []);
  parse_ip = λ a. some a;
  public_of = plain;
  self_sign = λ t key. some (encode t);
  sha256 = plain;
  ecdsa_verify = λ key hash r s. true;
  ecdsa_sign = λ key hash. some (1, 2);
  set_bytes = λ b. 0;
  to_bytes = λ n. n ∷ [];
}

abbrev config2 : CryptoUnitConfig
config2 = record {
  identity = (5 ∷ []) ∷ (7 ∷ []) ∷ [];
  ca_addr = 9 ∷ [];
  dns_names = [];
  path = [];
}

bound2 : group2.num_rings < 2 ^ 32
unfolding group_of
bound2 = omega arith

back2 : ParsesBack decode (take group2.boot_nodes ([] ++ (own ∷ [])))
unfolding ParsesBack group_of
back2 = (refl, tt)

root2 : decode group2.group_cert.raw ≡ some root
unfolding group_of
root2 = refl

new_cu-Served_example :
    new_cu crypto2 (some config2)
    ≡ some (
        inl (record {
          priv = 4 ∷ [];
          pk = config2.identity;
          ca_addr = config2.ca_addr;
          path = config2.path;
          self = own;
          ca = some root;
          num_rings = group2.num_rings;
          known_certs = take group2.boot_nodes ([] ++ (own ∷ []));
          trusted = leb (length {A = Certificate} [] + 1) group2.boot_nodes;
        }))
new_cu-Served_example =
    new_cu-Served crypto2 config2 (4 ∷ []) (4 ∷ []) (4 ∷ []) answer2 group2 [] own root
      (omega arith) (omega arith) refl refl refl refl served2 bound2 refl root2 back2
