-- ===== src/Cauth/Signing.antt =====
-- certificateSigning of cauth/cauth.go, the handler of a certificate request. A return without an
-- answer leaves the response `none`. What is random stands in `Draws`.
pub mod Serves
use ifrit.Prelude.{
  ℕ, Bool, Option, none, some, List, [], ◌∷◌, Bytes, length, ltb, ◌==◌, get_or, if◌then◌else◌,
  ◌>>=◌, false,
}
use ifrit.Discovery.Types.{Certificate}
use ifrit.Cauth.{Ca, Group, Template, ring_extension}
use ifrit.Cauth.Boot.{add_known_cert, get_trusted_nodes}
use ifrit.Cauth.Ids.{gen_id}

-- The fields of a certificate request that the handler reads.
pub record Request : Type 0 where
  pub locality : List Bytes
  pub dns_names : List Bytes
  pub public_key : Option Bytes

pub record Services : Type 0 where
  pub parse_request : Bytes → Option Request
  pub resolve_ip : Bytes → Option Bytes
  -- Signed with the key of the authority, under the second certificate.
  pub create_certificate : Template → Certificate → Option Bytes
  pub parse_certificate : Bytes → Option Certificate

pub record Draws : Type 0 where
  pub serial : Option ℕ
  pub nonces : List (Option Bytes)

pub record Response : Type 0 where
  pub own_cert : Bytes
  pub known_certs : List Bytes
  pub ca_cert : Bytes
  pub trusted : Bool

-- `strings.Split(s, ":")[0]`.
unfoldable pub before_colon : Bytes → Bytes
before_colon [] = []
before_colon (c ∷ s) = let rest = before_colon s in if c == 58 then [] else c ∷ rest

unfoldable pub template_of : Request → ℕ → Bytes → Bytes → ℕ → Template
template_of req serial ip id num_rings = record {
  serial_number = serial;
  subject_key_id = id;
  locality = req.locality;
  extra_extensions = ring_extension num_rings ∷ [];
  public_key = req.public_key;
  ip_addresses = ip ∷ [];
  dns_names = req.dns_names;
  is_ca = false;
}

-- From `x509.CreateCertificate` on; `rest` are the other groups.
unfoldable pub issue : Services → Template → Ca → Group → List Group → Option (Ca × Option Response)
issue sv template ca g rest = elim (sv.create_certificate template g.group_cert) [
  | none ↦ some (record ca { groups = g ∷ rest }, none)
  | some raw ↦ elim (sv.parse_certificate raw) [
    | none ↦ some (record ca { groups = g ∷ rest }, none)
    | some cert ↦ (do
      (g', trusted) ← add_known_cert g cert
      known ← get_trusted_nodes g'
      some (
        record ca { groups = g' ∷ rest },
        some (record {
          own_cert = raw;
          known_certs = known;
          ca_cert = g'.group_cert.raw;
          trusted = trusted;
        }),
      ))
  ]
]

unfoldable pub sign_request :
    Services → Draws → Request → Ca → Group → List Group → Option (Ca × Option Response)
sign_request sv draws req ca g rest =
    if ltb (length req.locality) 2 then some (ca, none) else elim draws.serial [
      | none ↦ some (ca, none)
      | some serial ↦ elim (sv.resolve_ip (before_colon (get_or req.locality 0 []))) [
        | none ↦ some (ca, none)
        | some ip ↦ (do
          (id, ids) ← gen_id draws.nonces g.existing_ids
          issue sv (template_of req serial ip id g.num_rings) ca (record g { existing_ids = ids })
              rest)
      ]
    ]

-- `c.groups[0]`, a panic when there is no group.
unfoldable pub first_group :
    Services → Draws → Request → Ca → List Group → Option (Ca × Option Response)
first_group sv draws req ca [] = none
first_group sv draws req ca (g ∷ rest) = sign_request sv draws req ca g rest

unfoldable pub certificate_signing : Services → Draws → Bytes → Ca → Option (Ca × Option Response)
certificate_signing sv draws body ca = elim (sv.parse_request body) [
  | none ↦ some (ca, none)
  | some req ↦ first_group sv draws req ca ca.groups
]
