-- ===== src/Comm/CryptoUnit/Files.antt =====
-- The files of a crypto unit: SavePrivateKey, SaveCertificate, LoadCu and what they call, in
-- comm/crypto_unit.go. `Disk` is what the operating system answers; a file that was written is a
-- name with its bytes, before the PEM encoding, latest first.
use ifrit.Prelude.{
  not, Bool-cases, Bool, true, false, Option, none, some, List, [], ◌∷◌, ◌⊎◌, inl, inr, Bytes,
  length, ◌==◌, if◌then◌else◌, ◌>>=◌, ◌≡◌, refl,
}
use ifrit.Discovery.Types.{Certificate}
use ifrit.Cauth.{PemFile, unreadable, no_block, malformed, holds}
use ifrit.Comm.CryptoUnit.{CryptoUnit, CertSet, CryptoError, unit_of}

pub data Stat : Type 0 where
  present absent stat_failed : Stat

pub record Disk : Type 0 where
  pub stat : Bytes → Stat
  pub mkdir_all : Bytes → Bool
  pub can_write : Bytes → Bool
  pub marshal_key : Bytes → Option Bytes
  -- `filepath.Join(path, fmt.Sprintf("<prefix>-%s.pem", SerialNumber))`
  pub cert_name : Bytes → Bytes → Certificate → Bytes
  pub key_name : Bytes → Bytes
  -- `filepath.Glob(filepath.Join(path, "<prefix>-*.pem"))`: an error is `none`, no match is `[]`.
  pub glob : Bytes → Bytes → Option (List Bytes)
  pub read_certificate : Bytes → PemFile Certificate
  pub read_key : Bytes → PemFile Bytes

abbrev pub Written : Type 0
Written = List (Bytes × Bytes)

-- "g", "ca" and "self".
abbrev pub known_prefix : Bytes
known_prefix = 103 ∷ []

abbrev pub ca_prefix : Bytes
ca_prefix = 99 ∷ 97 ∷ []

abbrev pub self_prefix : Bytes
self_prefix = 115 ∷ 101 ∷ 108 ∷ 102 ∷ []

-- The directory is there, or is made.
unfoldable pub ready : Disk → Bytes → Bool
ready disk path = elim (disk.stat path) [
  | present ↦ true
  | absent ↦ disk.mkdir_all path
  | stat_failed ↦ false
]

-- The result is the files, and whether an error was returned. The key's file is made first, and
-- stays empty when the key cannot be encoded.
unfoldable pub save_private_key : Disk → CryptoUnit → Written → Written × Bool
save_private_key disk cu files =
    if ready disk cu.path
    then (if disk.can_write (disk.key_name cu.path)
        then elim (disk.marshal_key cu.priv) [
          | none ↦ ((disk.key_name cu.path, []) ∷ files, true)
          | some b ↦ ((disk.key_name cu.path, b) ∷ files, false)
        ]
        else (files, true))
    else (files, true)

unfoldable pub save_cert : Disk → Certificate → Bytes → Written → Written × Bool
save_cert disk cert filename files =
    if disk.can_write filename then ((filename, cert.raw) ∷ files, false) else (files, true)

-- The loop over the known certificates; an error is logged only.
unfoldable pub save_known : Disk → Bytes → List Certificate → Written → Written
save_known disk path [] files = files
save_known disk path (c ∷ known) files =
    save_known disk path known (save_cert disk c (disk.cert_name path known_prefix c) files).0

-- The serial number of a nil `ca` is a panic.
unfoldable pub save_certificate : Disk → CryptoUnit → Written → Option (Written × Bool)
save_certificate disk cu files =
    if ready disk cu.path
    then (let files1 = save_known disk cu.path cu.known_certs files in
        elim cu.ca [
          | none ↦ none
          | some ca ↦
              (let files2 = (save_cert disk ca (disk.cert_name cu.path ca_prefix ca) files1).0 in
                some (
                  (save_cert disk cu.self (disk.cert_name cu.path self_prefix cu.self) files2).0,
                  false,
                ))
        ])
    else some (files, true)

unfoldable pub load_cert : Disk → Bytes → Certificate ⊎ CryptoError
load_cert disk path = elim (disk.read_certificate path) [
  | unreadable ↦ inr CryptoError.read_failed
  | no_block ↦ inr CryptoError.pem_decode
  | malformed ↦ inr CryptoError.parse_failed
  | holds cert ↦ inl cert
]

unfoldable pub load_known : Disk → List Bytes → List Certificate ⊎ CryptoError
load_known disk [] = inl []
load_known disk (path ∷ matches) =
    let rest = load_known disk matches in
    elim (load_cert disk path) [
      | inr e ↦ inr e
      | inl cert ↦ elim rest [ inr e ↦ inr e | inl known ↦ inl (cert ∷ known) ]
    ]

-- From the authority's file on. `matches[0]` of no match is a panic.
unfoldable pub load_ca_cert :
    Disk → Bytes → Certificate → List Certificate → Option (CertSet ⊎ CryptoError)
load_ca_cert disk path self known = elim (disk.glob path ca_prefix) [
  | none ↦ some (inr CryptoError.glob_failed)
  | some [] ↦ none
  | some (first ∷ second ∷ more) ↦ some (inr CryptoError.more_than_one)
  | some (first ∷ []) ↦ elim (load_cert disk first) [
    | inr e ↦ some (inr e)
    | inl ca ↦
        some
          (inl (record { own_cert = self; ca_cert = some ca; known_certs = known; trusted = true }))
  ]
]

-- From the files of the peers on.
unfoldable pub load_peers : Disk → Bytes → Certificate → Option (CertSet ⊎ CryptoError)
load_peers disk path self = elim (disk.glob path known_prefix) [
  | none ↦ some (inr CryptoError.glob_failed)
  | some [] ↦ some (inr CryptoError.no_hits)
  | some (first ∷ more) ↦ elim (load_known disk (first ∷ more)) [
    | inr e ↦ some (inr e)
    | inl known ↦ load_ca_cert disk path self known
  ]
]

unfoldable pub load_cert_set : Disk → Bytes → Option (CertSet ⊎ CryptoError)
load_cert_set disk path =
    if length path == 0
    then some (inr CryptoError.invalid_path)
    else elim (disk.glob path self_prefix) [
      | none ↦ some (inr CryptoError.glob_failed)
      | some [] ↦ some (inr CryptoError.no_hits)
      | some (first ∷ second ∷ more) ↦ some (inr CryptoError.more_than_one)
      | some (first ∷ []) ↦ elim (load_cert disk first) [
        | inr e ↦ some (inr e)
        | inl self ↦ load_peers disk path self
      ]
    ]

unfoldable pub load_priv_key : Disk → Bytes → Bytes ⊎ CryptoError
load_priv_key disk path =
    if length path == 0
    then inr CryptoError.invalid_path
    else elim (disk.read_key (disk.key_name path)) [
      | unreadable ↦ inr CryptoError.read_failed
      | no_block ↦ inr CryptoError.pem_decode
      | malformed ↦ inr CryptoError.parse_failed
      | holds key ↦ inl key
    ]

unfoldable pub load_cu : Disk → Bytes → List Bytes → Bytes → Option (CryptoUnit ⊎ CryptoError)
load_cu disk path identity ca_addr = do
  found ← load_cert_set disk path
  elim found [
    | inr e ↦ some (inr e)
    | inl certs ↦ elim (load_priv_key disk path) [
      | inr e ↦ some (inr e)
      | inl key ↦ unit_of certs key identity ca_addr path
    ]
  ]

-- The files that a unit with this certificate of an authority writes.
all_saved : Disk → CryptoUnit → Certificate → Written → Written
all_saved disk cu ca files =
    (save_cert disk cu.self (disk.cert_name cu.path self_prefix cu.self)
      (save_cert disk ca (disk.cert_name cu.path ca_prefix ca)
        (save_known disk cu.path cu.known_certs files)).0).0

saves :
    (disk : Disk) (cu : CryptoUnit) (files : Written) (ca : Certificate)
    → cu.ca ≡ some ca
    → (files' : Written) × (save_certificate disk cu files
        ≡ some (files', not (ready disk cu.path)))
unfolding save_certificate all_saved
saves disk cu files ca h = elim (Bool-cases (ready disk cu.path)) [
  | inl r ↦ (all_saved disk cu ca files, rw (save_certificate, r, h) refl)
  | inr r ↦ (files, rw (save_certificate, r) refl)
]

-- SaveCertificate of a unit without a certificate of an authority, as the self-signed one is,
-- panics whenever its directory is there or can be made; with such a certificate it never panics,
-- and an error is returned only for the directory.
pub save_certificate_panics :
    (disk : Disk) (cu : CryptoUnit) (files : Written)
    → (ready disk cu.path ≡ true → cu.ca ≡ none → save_certificate disk cu files ≡ none)
      × ((ca : Certificate)
          → cu.ca ≡ some ca
          → (files' : Written) × (save_certificate disk cu files
              ≡ some (files', not (ready disk cu.path))))
unfolding save_certificate
save_certificate_panics disk cu files = (λ r no_ca. rw (r, no_ca) refl, saves disk cu files)
