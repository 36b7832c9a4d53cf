-- ===== src/Cauth/Signing/Serves.antt =====
-- What the answer of certificateSigning in cauth/cauth.go holds.
use ifrit.Prelude.{
  ap, sym, subst, ◌∙◌, ℕ, Bool, false, Option, some, List, [], ◌∷◌, ◌++◌, map, take, Bytes,
  bytes_eq, length, leb, ltb, ◌+◌, ◌^◌, ◌<◌, ◌≤◌, bytes_beq, if◌then◌else◌, ◌≡◌, refl, arith,
  get_or,
}
use ifrit.Prelude.GoMap.{has}
use ifrit.LittleEndian.{put_uint32}
use ifrit.Discovery.Types.{Certificate}
use ifrit.Cauth.{Ca, Group, Template, ring_number_oid}
use ifrit.Cauth.Boot.{Issued, add_known_cert-Issued, get_trusted_nodes-Issued}
use ifrit.Cauth.Ids.{gen_id, gen_id_fresh}
use ifrit.Cauth.Signing.{
  first_group, Services, Draws, Request, Response, before_colon, template_of, issue, sign_request,
  certificate_signing,
}

-- The values of the extensions that carry a number of rings.
unfoldable pub ring_values : List (List ℕ × Bytes) → List Bytes
ring_values [] = []
ring_values ((oid, value) ∷ rest) =
    let found = ring_values rest in if bytes_beq oid ring_number_oid then value ∷ found else found

-- What `crypto/x509` documents: a certificate that was made from a template and is parsed again has
-- its bytes, its key id and its extra extensions, among those that the library adds.
pub record Parsed (template : Template) (raw : Bytes) (cert : Certificate) : Type 0 where
  pub same_raw : cert.raw ≡ raw
  pub same_id : cert.subject_key_id ≡ template.subject_key_id
  pub same_rings : ring_values cert.extensions ≡ ring_values template.extra_extensions

pub record Served (g : Group) (cs : List Certificate) (cert : Certificate) (resp : Response)
    : Type 0 where
  pub own : resp.own_cert ≡ cert.raw
  pub known : resp.known_certs ≡ map (λ c. c.raw) (take g.boot_nodes (cs ++ (cert ∷ [])))
  pub authority : resp.ca_cert ≡ g.group_cert.raw
  pub first : resp.trusted ≡ leb (length cs + 1) g.boot_nodes
  pub fresh : has cert.subject_key_id g.existing_ids ≡ false
  pub rings : ring_values cert.extensions ≡ put_uint32 g.num_rings ∷ []

long_enough : (req : Request) → 2 ≤ length req.locality → ltb (length req.locality) 2 ≡ false
long_enough req h = ground arith

signing_request :
    (sv : Services) (draws : Draws) (body : Bytes) (req : Request) (ca : Ca) (g : Group)
    (rest : List Group)
    → ca.groups ≡ g ∷ rest
    → sv.parse_request body ≡ some req
    → certificate_signing sv draws body ca ≡ sign_request sv draws req ca g rest
unfolding certificate_signing first_group
signing_request sv draws body req ca g rest at_g parsed =
    rw (certificate_signing, parsed) (ap (first_group sv draws req ca) at_g)

request_issue :
    (sv : Services) (draws : Draws) (req : Request) (ca : Ca) (g : Group) (rest : List Group)
    (serial : ℕ) (ip id : Bytes) (ids : List (Bytes × Bool))
    → 2 ≤ length req.locality
    → draws.serial ≡ some serial
    → sv.resolve_ip (before_colon (get_or req.locality 0 [])) ≡ some ip
    → gen_id draws.nonces g.existing_ids ≡ some (id, ids)
    → sign_request sv draws req ca g rest
      ≡ issue sv
          (template_of req serial ip id g.num_rings)
          ca
          (record g { existing_ids = ids })
          rest
unfolding sign_request
request_issue sv draws req ca g rest serial ip id ids locality drawn resolved gave =
    rw (long_enough req locality, drawn, resolved, gave) refl

ring_values-template :
    (req : Request) (serial : ℕ) (ip id : Bytes) (n : ℕ)
    → ring_values (template_of req serial ip id n).extra_extensions ≡ put_uint32 n ∷ []
unfolding ring_values template_of bytes_beq
ring_values-template req serial ip id n = refl

issue-Served :
    (sv : Services) (t : Template) (ca : Ca) (g : Group) (ids : List (Bytes × Bool))
    (rest : List Group) (cs : List Certificate) (raw : Bytes) (cert : Certificate)
    → Issued g cs
    → length cs + 1 < 2 ^ 32
    → sv.create_certificate t g.group_cert ≡ some raw
    → sv.parse_certificate raw ≡ some cert
    → (g' : Group) × (known : List Bytes) × (issue sv t ca (record g { existing_ids = ids }) rest
        ≡ some (
          record ca { groups = g' ∷ rest },
          some (record {
            own_cert = raw;
            known_certs = known;
            ca_cert = g.group_cert.raw;
            trusted = leb (length cs + 1) g.boot_nodes;
          }),
        ))
      × Issued g' (cs ++ (cert ∷ []))
      × (known ≡ map (λ c. c.raw) (take g.boot_nodes (cs ++ (cert ∷ []))))
unfolding issue
issue-Served sv t ca g ids rest cs raw cert inv room created read =
    let g1 = record g { existing_ids = ids } in
    let (g', run, inv', boots, same_cert, _, _) =
      add_known_cert-Issued g1 cs cert (record { known = inv.known; count = inv.count }) room in
    (
      g',
      map (λ c. c.raw) (take g'.boot_nodes (cs ++ (cert ∷ []))),
      rw
          (
            issue,
            created,
            read,
            run,
            get_trusted_nodes-Issued g' (cs ++ (cert ∷ [])) inv',
            same_cert,
          )
          refl,
      inv',
      rw boots refl,
    )

-- A request that parses, with two addresses of which the first resolves, is answered when the
-- authority has a group, a serial number is drawn, an id is drawn that was not given, and x509
-- makes and parses the certificate: the answer holds a certificate with a fresh id and the number
-- of rings of the first group, the certificate of that group, and the raw bytes of the first
-- certificates issued as the boot nodes; `trusted` says whether this one is among them, and the
-- group has issued it.
pub certificate_signing-Served :
    (sv : Services) (draws : Draws) (body : Bytes) (req : Request) (ca : Ca) (g : Group)
    (rest : List Group) (cs : List Certificate) (serial : ℕ) (ip nonce : Bytes)
    (before after : List (Option Bytes))
    → ca.groups ≡ g ∷ rest
    → Issued g cs
    → length cs + 1 < 2 ^ 32
    → sv.parse_request body ≡ some req
    → 2 ≤ length req.locality
    → draws.serial ≡ some serial
    → sv.resolve_ip (before_colon (get_or req.locality 0 [])) ≡ some ip
    → draws.nonces ≡ before ++ (some nonce ∷ after)
    → has nonce g.existing_ids ≡ false
    → ((id : Bytes)
        → (raw : Bytes) × (cert : Certificate) × (sv.create_certificate
              (template_of req serial ip id g.num_rings)
              g.group_cert
            ≡ some raw)
          × (sv.parse_certificate raw ≡ some cert)
          × Parsed (template_of req serial ip id g.num_rings) raw cert)
    → (ca' : Ca) × (g' : Group) × (cert : Certificate) × (resp : Response) × (certificate_signing sv
          draws body ca
        ≡ some (ca', some resp))
      × (ca'.groups ≡ g' ∷ rest)
      × Issued g' (cs ++ (cert ∷ []))
      × Served g cs cert resp
unfolding template_of
certificate_signing-Served sv draws body req ca g rest cs serial ip nonce before after at_g inv room
      parsed locality drawn resolved nonces new works =
    let (id, ids, gave, is_fresh, _) = gen_id_fresh before after nonce g.existing_ids new in
    let (raw, cert, created, read, kept) = works id in
    let (g', known, run, inv', same) =
      issue-Served sv (template_of req serial ip id g.num_rings) ca g ids rest cs raw cert inv room
        created read in
    (
      record ca { groups = g' ∷ rest },
      g',
      cert,
      record {
        own_cert = raw;
        known_certs = known;
        ca_cert = g.group_cert.raw;
        trusted = leb (length cs + 1) g.boot_nodes;
      },
      signing_request sv draws body req ca g rest at_g parsed
          ∙ (request_issue sv draws req ca g rest serial ip id ids locality drawn resolved
                (rw nonces gave)
              ∙ run),
      refl,
      inv',
      record {
        own = sym kept.same_raw;
        known = same;
        authority = refl;
        first = refl;
        fresh = subst (λ i. has i g.existing_ids ≡ false) (sym kept.same_id) is_fresh;
        rings = kept.same_rings ∙ ring_values-template req serial ip id g.num_rings;
      },
    )
