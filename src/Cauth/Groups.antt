-- ===== src/Cauth/Groups.antt =====
-- SavePrivateKey and SaveCertificate of cauth/cauth.go, and the files of groups that LoadCa reads.
pub mod Stored
pub mod Written
use ifrit.Prelude.{
  bytes_eq, ℕ, ◌^◌, ◌<◌, ◌≤◌, Bool, true, false, Option, none, some, List, [], ◌∷◌, ◌++◌, map, inl,
  Bytes, bytes_beq, length, ltb, ◌==◌, if◌then◌else◌, ◌≡◌, refl, ap, ◌∙◌, arith,
}
use ifrit.Prelude.GoMap.{lookup, insert}
use ifrit.LittleEndian.{put_uint32, uint32-put_uint32}
use ifrit.Discovery.Types.{Certificate}
use ifrit.Cauth.{
  Ca, Group, Template, PemFile, holds, malformed, unreadable, no_block, first_ring_value, group_of,
  load_groups, load_ca, key_pem, root_template, new_group, key_pem, root_template,
}
use ifrit.Cauth.Signing.Serves.{ring_values, Parsed}

-- A directory: the files with their content.
abbrev pub Files : Type 0
Files = List (Bytes × Bytes)

-- What `os.Create` and `pem.Encode` do: the file is not made, has a part of the content only, or all
-- of it.
pub data Write : Type 0 where
  fails writes : Write
  cuts : Bytes → Write

-- The loop of SaveCertificate, up to the first error, and whether there was one. A file with the name
-- is overwritten. `name` gives the path that is made of the serial number, `encode` the PEM block.
module _ (write : Bytes → Write) (encode : Bytes → Bytes) (name : Certificate → Bytes) where
  unfoldable pub save_groups : List Group → Files → Files × Bool
  save_groups [] files = (files, false)
  save_groups (g ∷ groups) files = elim (write (name g.group_cert)) [
    | fails ↦ (files, true)
    | cuts part ↦ (insert (name g.group_cert) part files, true)
    | writes ↦ save_groups groups (insert (name g.group_cert) (encode g.group_cert.raw) files)
  ]

-- `ioutil.ReadFile`, `pem.Decode` and `x509.ParseCertificate` of a file.
module _ (decode : Bytes → Option Bytes) (parse : Bytes → Option Certificate) where
  unfoldable pub read_group : Files → Bytes → PemFile Certificate
  read_group files file = elim (lookup file files) [
    | none ↦ unreadable
    | some content ↦ elim (decode content) [
      | none ↦ no_block
      | some raw ↦ elim (parse raw) [ none ↦ malformed | some cert ↦ holds cert ]
    ]
  ]

  -- `glob` gives the names that match `g-*.pem`, of those of the directory.
  unfoldable pub stored_groups : (List Bytes → List Bytes) → Files → List (PemFile Certificate)
  stored_groups glob files = map (read_group files) (glob (map (λ file. file.0) files))

-- The files that SavePrivateKey writes; `none` is an error.
unfoldable pub save_private_key :
    (Bytes → Bool) → (Bytes → Bytes → Bytes) → Bytes → Ca → Option (Bytes × Bytes)
save_private_key can_write join key ca =
    if length ca.key_file_path == 0
    then none
    else (if can_write (join ca.path ca.key_file_path)
        then some (join ca.path ca.key_file_path, key)
        else none)

-- The certificate of the group parses to itself and carries the group's number of rings.
pub record Carries (parse : Bytes → Option Certificate) (g : Group) : Type 0 where
  pub back : parse g.group_cert.raw ≡ some g.group_cert
  pub rings : ring_values g.group_cert.extensions ≡ put_uint32 g.num_rings ∷ []
  pub bound : g.num_rings < 2 ^ 32

unfoldable pub AllCarry : (Bytes → Option Certificate) → List Group → Type 0
AllCarry parse [] = Unit
AllCarry parse (g ∷ groups) = Carries parse g × AllCarry parse groups

AllCarry-append :
    (parse : Bytes → Option Certificate) (groups : List Group) (g : Group)
    → AllCarry parse groups
    → Carries parse g
    → AllCarry parse (groups ++ (g ∷ []))
unfolding AllCarry
AllCarry-append parse [] g all one = (one, tt)
AllCarry-append parse (x ∷ groups) g (first, rest) one =
    (first, AllCarry-append parse groups g rest one)

root_ring_values :
    (pub_key : Option Bytes) (serial ring_num : ℕ)
    → ring_values (root_template pub_key serial ring_num).extra_extensions
      ≡ put_uint32 ring_num ∷ []
unfolding root_template ring_values bytes_beq
root_ring_values pub_key serial ring_num = refl

-- When a serial number is drawn, x509 makes and parses certificates and the number of rings fits in
-- 32 bits, NewGroup adds one group with that number of rings, whose certificate parses to itself
-- and carries the number, as the certificates of all groups do when those of the others did.
pub new_group-AllCarry :
    (create : Template → Option Bytes) (parse : Bytes → Option Certificate) (pub_key : Option Bytes)
    (serial ring_num boot_nodes : ℕ) (ca : Ca) (raw : Bytes) (cert : Certificate)
    → ring_num < 2 ^ 32
    → AllCarry parse ca.groups
    → create (root_template pub_key serial ring_num) ≡ some raw
    → parse raw ≡ some cert
    → Parsed (root_template pub_key serial ring_num) raw cert
    → (new_group create parse pub_key (some serial) ring_num boot_nodes ca
        ≡ (record ca { groups = ca.groups ++ (group_of cert boot_nodes ring_num ∷ []) }, none))
      × AllCarry parse (ca.groups ++ (group_of cert boot_nodes ring_num ∷ []))
unfolding new_group root_template group_of
new_group-AllCarry create parse pub_key serial ring_num b ca raw cert bound all created parsed
      kept =
    (
      rw (new_group, created, parsed) refl,
      AllCarry-append parse ca.groups (group_of cert b ring_num) all (record {
        back = ap parse kept.same_raw ∙ parsed;
        rings = kept.same_rings ∙ root_ring_values pub_key serial ring_num;
        bound = bound;
      }),
    )
