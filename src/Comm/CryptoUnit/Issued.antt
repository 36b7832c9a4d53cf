-- ===== src/Comm/CryptoUnit/Issued.antt =====
-- What NewCu in comm/crypto_unit.go makes of the answer of the authority.
use ifrit.Prelude.{
  Bool-cases, ◌∙◌, ℕ, true, false, Option, none, some, List, [], ◌∷◌, ◌++◌, inl, inr, map, take,
  Bytes, length, leb, ltb, ◌==◌, ◌+◌, ◌^◌, ◌<◌, ◌≤◌, bytes_beq, ◌≡◌, refl, arith, get_or,
}
use ifrit.LittleEndian.{put_uint32, uint32-put_uint32}
use ifrit.Discovery.Types.{Certificate}
use ifrit.Cauth.{Group, ring_number_oid}
use ifrit.Cauth.Signing.{Response, before_colon}
use ifrit.Cauth.Signing.Serves.{ring_values, Parsed, Served}
use ifrit.Comm.CryptoUnit.{
  CryptoUnit, CryptoUnitConfig, CertSet, CryptoServices, parse_all, read_response,
  send_cert_request, own_template, self_signed, self_signed_cert, last_ring_value, unit_of,
  cert_set, new_cu,
}

-- The last one of a list, or what was there before.
last_or : Option Bytes → List Bytes → Option Bytes
last_or o [] = o
last_or o (b ∷ l) = last_or (some b) l

last_ring_value-ring_values :
    (o : Option Bytes) (exts : List (List ℕ × Bytes))
    → last_ring_value o exts ≡ last_or o (ring_values exts)
unfolding last_ring_value ring_values last_or
last_ring_value-ring_values o [] = refl
last_ring_value-ring_values o ((oid, value) ∷ rest) =
    elim (Bool-cases (bytes_beq oid ring_number_oid)) [
      | inl b ↦ rw b (last_ring_value-ring_values (some value) rest)
      | inr b ↦ rw b (last_ring_value-ring_values o rest)
    ]

one_ring_value :
    (exts : List (List ℕ × Bytes)) (value : Bytes)
    → ring_values exts ≡ value ∷ []
    → last_ring_value none exts ≡ some value
unfolding last_or
one_ring_value exts value h = rw (last_ring_value-ring_values none exts, h) refl

-- Each certificate of the list is what its bytes parse to.
unfoldable pub ParsesBack : (Bytes → Option Certificate) → List Certificate → Type 0
ParsesBack parse [] = Unit
ParsesBack parse (c ∷ cs) = (parse c.raw ≡ some c) × ParsesBack parse cs

parse_all-map :
    (parse : Bytes → Option Certificate) (cs : List Certificate)
    → ParsesBack parse cs
    → parse_all parse (map (λ c. c.raw) cs) ≡ some cs
unfolding parse_all ParsesBack
parse_all-map parse [] h = refl
parse_all-map parse (c ∷ cs) h = rw (h.0, parse_all-map parse cs h.1) refl

unit_of-rings :
    (certs : CertSet) (key : Bytes) (identity : List Bytes) (ca_addr path : Bytes) (n : ℕ)
    → n < 2 ^ 32
    → ring_values certs.own_cert.extensions ≡ put_uint32 n ∷ []
    → unit_of certs key identity ca_addr path
      ≡ some (
          inl (record {
            priv = key;
            pk = identity;
            ca_addr = ca_addr;
            path = path;
            self = certs.own_cert;
            ca = certs.ca_cert;
            num_rings = n;
            known_certs = certs.known_certs;
            trusted = certs.trusted;
          }))
unfolding unit_of
unit_of-rings certs key identity ca_addr path n h rings =
    rw
      (
        unit_of,
        one_ring_value certs.own_cert.extensions (put_uint32 n) rings,
        uint32-put_uint32 n h,
      )
      refl

two_addrs :
    (config : CryptoUnitConfig)
    → 2 ≤ length config.identity
    → ltb (length config.identity) 2 ≡ false
two_addrs config h = ground arith

has_ca :
    (config : CryptoUnitConfig) → 1 ≤ length config.ca_addr → (length config.ca_addr == 0) ≡ false
has_ca config h = ground arith

-- With two addresses in the identity, an authority whose answer is that of a served request, and
-- x509 parsing the certificates of the answer, NewCu returns a unit that carries its own
-- certificate, the certificate of the authority, the number of rings of the group, and as known
-- certificates those of the boot nodes, in the order in which they were issued; it is trusted
-- exactly when its own is one of the first ones.
pub new_cu-Served :
    (sv : CryptoServices) (config : CryptoUnitConfig) (key request body : Bytes) (resp : Response)
    (g : Group) (cs : List Certificate) (cert authority : Certificate)
    → 2 ≤ length config.identity
    → 1 ≤ length config.ca_addr
    → sv.gen_key ≡ some key
    → sv.create_request config.identity config.dns_names key ≡ some request
    → sv.post (sv.request_url config.ca_addr) request ≡ some body
    → sv.decode_json body ≡ some resp
    → Served g cs cert resp
    → g.num_rings < 2 ^ 32
    → sv.parse_certificate cert.raw ≡ some cert
    → sv.parse_certificate g.group_cert.raw ≡ some authority
    → ParsesBack sv.parse_certificate (take g.boot_nodes (cs ++ (cert ∷ [])))
    → new_cu sv (some config)
      ≡ some (
          inl (record {
            priv = key;
            pk = config.identity;
            ca_addr = config.ca_addr;
            path = config.path;
            self = cert;
            ca = some authority;
            num_rings = g.num_rings;
            known_certs = take g.boot_nodes (cs ++ (cert ∷ []));
            trusted = leb (length cs + 1) g.boot_nodes;
          }))
unfolding new_cu cert_set send_cert_request read_response
new_cu-Served sv config key request body resp g cs cert authority two addr keyed made posted decoded
      served bound own ca back =
    rw
      (
        new_cu,
        two_addrs config two,
        keyed,
        cert_set,
        has_ca config addr,
        send_cert_request,
        made,
        posted,
        decoded,
        read_response,
        served.own,
        own,
        served.authority,
        ca,
        served.known,
        parse_all-map sv.parse_certificate (take g.boot_nodes (cs ++ (cert ∷ []))) back,
        served.first,
      )
      (unit_of-rings _ key config.identity config.ca_addr config.path g.num_rings bound
        served.rings)

no_ca : (config : CryptoUnitConfig) → config.ca_addr ≡ [] → (length config.ca_addr == 0) ≡ true
no_ca config h = ground arith

own_ring_values :
    (sv : CryptoServices) (key : Bytes) (identity : List Bytes) (serial : ℕ) (ip : Bytes)
    → ring_values (own_template sv key identity serial ip).extra_extensions ≡ put_uint32 32 ∷ []
unfolding own_template ring_values bytes_beq
own_ring_values sv key identity serial ip = refl

own_id :
    (sv : CryptoServices) (key : Bytes) (identity : List Bytes) (serial : ℕ) (ip : Bytes)
    → (own_template sv key identity serial ip).subject_key_id ≡ sv.random_id
unfolding own_template
own_id sv key identity serial ip = refl

-- With two addresses in the identity and no authority, when the host resolves and x509 signs and
-- parses the template, NewCu returns a unit with 32 rings, a certificate with the drawn id, no
-- certificate of an authority, no known certificates and no trust.
pub new_cu_self_signed :
    (sv : CryptoServices) (config : CryptoUnitConfig) (key raw service_ip ip : Bytes)
    (ips : List Bytes) (serial : ℕ) (cert : Certificate)
    → 2 ≤ length config.identity
    → config.ca_addr ≡ []
    → sv.gen_key ≡ some key
    → sv.gen_serial ≡ some serial
    → sv.lookup_ip (before_colon (get_or config.identity 0 [])) ≡ some (service_ip ∷ ips)
    → sv.parse_ip service_ip ≡ some ip
    → sv.self_sign (own_template sv key config.identity serial ip) key ≡ some raw
    → sv.parse_certificate raw ≡ some cert
    → Parsed (own_template sv key config.identity serial ip) raw cert
    → (cu : CryptoUnit) × (new_cu sv (some config) ≡ some (inl cu))
      × (cu.num_rings ≡ 32)
      × (cu.self ≡ cert)
      × (cu.self.subject_key_id ≡ sv.random_id)
      × (cu.ca ≡ none)
      × (cu.known_certs ≡ [])
      × (cu.trusted ≡ false)
unfolding new_cu cert_set self_signed_cert self_signed
new_cu_self_signed sv config key raw service_ip ip ips serial cert two alone keyed drawn looked
      parsed signed read kept =
    (
      record {
        priv = key;
        pk = config.identity;
        ca_addr = config.ca_addr;
        path = config.path;
        self = cert;
        ca = none;
        num_rings = 32;
        known_certs = [];
        trusted = false;
      },
      rw
          (
            new_cu,
            two_addrs config two,
            keyed,
            cert_set,
            no_ca config alone,
            self_signed_cert,
            drawn,
            looked,
            parsed,
            self_signed,
            signed,
            read,
          )
          (unit_of-rings _ key config.identity config.ca_addr config.path 32 (omega arith)
            (kept.same_rings ∙ own_ring_values sv key config.identity serial ip)),
      refl,
      refl,
      kept.same_id ∙ own_id sv key config.identity serial ip,
      refl,
      refl,
      refl,
    )
