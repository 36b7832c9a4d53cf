-- ===== src/Cauth.antt =====
-- cauth/cauth.go, the certificate authority: groups and how they are made and loaded. `none` is a
-- panic. Keys, files, certificates and the source of random numbers are arguments.
pub mod Boot
pub mod Groups
pub mod Ids
pub mod Signing
use ifrit.Prelude.{
  ℕ, zero, suc, ◌+◌, ◌%◌, ◌^◌, Bool, true, false, Option, none, some, List, [], ◌∷◌, ◌++◌, ◌⊎◌, inl,
  inr, Bytes, bytes_eq, bytes_beq, length, take, set, replicate, ltb, leb, ◌==◌, ◌=?◌,
  if◌then◌else◌, ◌>>=◌,
}
use ifrit.LittleEndian.{put_uint32, uint32}
use ifrit.Discovery.Types.{Certificate}

pub data CaError : Type 0 where
  invalid_boot_nodes invalid_num_rings no_key no_glob no_group_file : CaError
  no_serial no_certificate : CaError

-- `known_certs` has a slot for each boot node; nil is `none`.
pub record Group : Type 0 where
  pub known_certs : List (Option Certificate)
  pub existing_ids : List (Bytes × Bool)
  pub group_cert : Certificate
  pub boot_nodes : ℕ
  pub curr_boot_nodes : ℕ
  pub num_rings : ℕ

pub record Ca : Type 0 where
  pub path : Bytes
  pub key_file_path : Bytes
  pub groups : List Group

-- The fields of a new certificate that are not the same for all.
pub record Template : Type 0 where
  pub serial_number : ℕ
  pub subject_key_id : Bytes
  pub locality : List Bytes
  pub extra_extensions : List (List ℕ × Bytes)
  pub public_key : Option Bytes
  pub ip_addresses : List Bytes
  pub dns_names : List Bytes
  pub is_ca : Bool

-- `RingNumberOid`.
abbrev pub ring_number_oid : List ℕ
ring_number_oid = 2 ∷ 5 ∷ 13 ∷ 37 ∷ []

-- The extension that carries the number of rings.
abbrev pub ring_extension : ℕ → List ℕ × Bytes
ring_extension num_rings = (ring_number_oid, put_uint32 num_rings)

-- The value of the first extension with the ring number.
unfoldable pub first_ring_value : List (List ℕ × Bytes) → Option Bytes
first_ring_value [] = none
first_ring_value ((oid, value) ∷ rest) =
    if bytes_beq oid ring_number_oid then some value else first_ring_value rest

unfoldable pub group_of : Certificate → ℕ → ℕ → Group
group_of cert boot_nodes num_rings = record {
  known_certs = replicate boot_nodes none;
  existing_ids = [];
  group_cert = cert;
  boot_nodes = boot_nodes;
  curr_boot_nodes = 0;
  num_rings = num_rings;
}

-- What a file gives: an error, no PEM block, bytes that do not parse, or its content.
pub data PemFile (A : Type 0) : Type 0 where
  unreadable no_block malformed : PemFile A
  holds : A → PemFile A

-- The loop over the group certificates. The error of a malformed one is not read, and the next line
-- dereferences nil.
unfoldable pub load_groups : List (PemFile Certificate) → ℕ → ℕ → Option (List Group ⊎ CaError)
load_groups [] boot_nodes num_rings = some (inl [])
load_groups (unreadable ∷ files) boot_nodes num_rings = some (inr no_group_file)
load_groups (no_block ∷ files) boot_nodes num_rings = none
load_groups (malformed ∷ files) boot_nodes num_rings = none
load_groups (holds cert ∷ files) boot_nodes num_rings =
    let rest = load_groups files boot_nodes num_rings in
    do
      rings ← elim (first_ring_value cert.extensions) [
        | none ↦ some num_rings
        | some value ↦ uint32 value
      ]
      found ← rest
      some (elim found [
        | inr e ↦ inr e
        | inl groups ↦ inl (group_of cert boot_nodes rings ∷ groups)
      ])

-- "key.pem"
abbrev pub key_pem : Bytes
key_pem = 107 ∷ 101 ∷ 121 ∷ 46 ∷ 112 ∷ 101 ∷ 109 ∷ []

unfoldable pub new_ca : Bytes → Ca
new_ca path = record { path = path; key_file_path = key_pem; groups = [] }

-- `files` are the matches of `g-*.pem`, `none` when the pattern is refused.
unfoldable pub load_ca :
    Bytes → ℕ → ℕ → PemFile Bytes → Option (List (PemFile Certificate)) → Option (Ca ⊎ CaError)
load_ca path boot_nodes num_rings key files =
    if ltb boot_nodes 1
    then some (inr invalid_boot_nodes)
    else (if ltb num_rings 1 then some (inr invalid_num_rings) else elim key [
      | unreadable ↦ some (inr no_key)
      | no_block ↦ none
      | malformed ↦ some (inr no_key)
      | holds b ↦ elim files [
        | none ↦ some (inr no_glob)
        | some l ↦ (do
          found ← load_groups l boot_nodes num_rings
          some (elim found [
            | inr e ↦ inr e
            | inl groups ↦ inl (record { path = path; key_file_path = key_pem; groups = groups })
          ]))
      ]
    ])

-- The certificate of a new group.
unfoldable pub root_template : Option Bytes → ℕ → ℕ → Template
root_template pub_key serial ring_num = record {
  serial_number = serial;
  subject_key_id = 1 ∷ 2 ∷ 3 ∷ 4 ∷ 5 ∷ [];
  locality = [];
  extra_extensions = ring_extension ring_num ∷ [];
  public_key = pub_key;
  ip_addresses = [];
  dns_names = [];
  is_ca = true;
}

-- `create` signs the template with the key of the authority, under the template itself.
unfoldable pub new_group :
    (Template → Option Bytes)
    → (Bytes → Option Certificate)
    → Option Bytes
    → Option ℕ
    → ℕ
    → ℕ
    → Ca
    → Ca × Option CaError
new_group create parse pub_key none ring_num boot_nodes ca = (ca, some no_serial)
new_group create parse pub_key (some serial) ring_num boot_nodes ca =
    elim (create (root_template pub_key serial ring_num)) [
      | none ↦ (ca, some no_certificate)
      | some raw ↦ elim (parse raw) [
        | none ↦ (ca, some no_certificate)
        | some cert ↦
            (record ca { groups = ca.groups ++ (group_of cert boot_nodes ring_num ∷ []) }, none)
      ]
    ]
