-- ===== src/Cauth/Groups/Written.antt =====
-- The directory that SaveCertificate of cauth/cauth.go leaves, and the groups read from it.
use mathlib.Core.List.{foldr, append-nil, append_assoc}
use ifrit.Prelude.{
  if◌then◌else◌, Bool, true, false, not, ◌&&◌, Option, some, List, [], ◌∷◌, ◌++◌, map, Bytes,
  bytes_eq, ◌=?◌, =?_iff, ◌≡◌, refl, ap, sym, ◌∙◌, arith,
}
use ifrit.Prelude.GoMap.{lookup, insert, has, lookup-insert, has-insert}
use ifrit.Discovery.Types.{Certificate}
use ifrit.Cauth.{Group, holds}
use ifrit.Cauth.Groups.{Files, Write, writes, save_groups, read_group, AllCarry}

abbrev pub all {ℓ} : {A : Type ℓ} → (A → Bool) → List A → Bool
all p = foldr (λ x b. p x && b) true

-- The names that match, in their order.
abbrev pub matching : (Bytes → Bool) → List Bytes → List Bytes
matching is_match [] = []
matching is_match (x ∷ l) = let rest = matching is_match l in if is_match x then x ∷ rest else rest

abbrev pub keys : Files → List Bytes
keys = map (λ file. file.0)

module _ (name : Certificate → Bytes) where
  -- The names of the files of the groups.
  abbrev pub names : List Group → List Bytes
  names = map (λ g. name g.group_cert)

  -- No group has this name.
  abbrev pub unnamed : Bytes → List Group → Bool
  unnamed k groups = all (λ j. not (j =? k)) (names groups)

  -- No two groups have the same name.
  abbrev pub distinct : List Group → Bool
  distinct [] = true
  distinct (g ∷ groups) = unnamed (name g.group_cert) groups && distinct groups

insert_new :
    (k v : Bytes) (files : Files)
    → has k files ≡ false
    → keys (insert k v files) ≡ keys files ++ (k ∷ [])
unfolding insert has
insert_new k v [] h = refl
insert_new k v ((j, w) ∷ files) h = ground (arith, insert_new k v files)

-- A name that no file has matches nothing that was there.
pub has-all :
    (is_match : Bytes → Bool) (files : Files) (k : Bytes)
    → all (λ f. not (is_match f)) (keys files) ≡ true
    → is_match k ≡ true
    → has k files ≡ false
unfolding has
has-all is_match [] k none_there h = refl
has-all is_match ((j, w) ∷ files) k none_there h =
    ground (arith, =?_iff j k, has-all is_match files k (ground arith) h)

pub matching-none :
    (is_match : Bytes → Bool) (l : List Bytes)
    → all (λ f. not (is_match f)) l ≡ true
    → matching is_match l ≡ []
matching-none is_match [] h = refl
matching-none is_match (x ∷ l) h = ground (arith, matching-none is_match l (ground arith))

pub matching-append :
    (is_match : Bytes → Bool) (l m : List Bytes)
    → matching is_match (l ++ m) ≡ matching is_match l ++ matching is_match m
matching-append is_match [] m = refl
matching-append is_match (x ∷ l) m = ground (arith, matching-append is_match l m)

module _ (write : Bytes → Write) (encode : Bytes → Bytes) (name : Certificate → Bytes)
    (written : (file : Bytes) → write file ≡ writes) where
  save_one :
      (g : Group) (groups : List Group) (files : Files)
      → save_groups write encode name (g ∷ groups) files
        ≡ save_groups write encode name groups
            (insert (name g.group_cert) (encode g.group_cert.raw) files)
  unfolding save_groups
  save_one g groups files = rw (save_groups, written (name g.group_cert)) refl

  pub all_written :
      (groups : List Group) (files : Files) → (save_groups write encode name groups files).1 ≡ false
  unfolding save_groups
  all_written [] files = refl
  all_written (g ∷ groups) files =
      ap (λ r. r.1) (save_one g groups files)
      ∙ all_written groups (insert (name g.group_cert) (encode g.group_cert.raw) files)

  -- A file that no group names stays.
  lookup-unnamed :
      (groups : List Group) (files : Files) (k : Bytes)
      → unnamed name k groups ≡ true
      → lookup k (save_groups write encode name groups files).0 ≡ lookup k files
  unfolding save_groups
  lookup-unnamed [] files k h = refl
  lookup-unnamed (g ∷ groups) files k h =
      let j = name g.group_cert in
      let v = encode g.group_cert.raw in
      ap (λ r. lookup k r.0) (save_one g groups files)
      ∙ lookup-unnamed groups (insert j v files) k (ground arith)
      ∙ ground (arith, lookup-insert j k v files)

  still_new :
      (groups : List Group) (files : Files) (k v : Bytes)
      → unnamed name k groups ≡ true
      → all (λ j. not (has j files)) (names name groups) ≡ true
      → all (λ j. not (has j (insert k v files))) (names name groups) ≡ true
  still_new [] files k v other new = refl
  still_new (g ∷ groups) files k v other new =
      let j = name g.group_cert in
      ground (
        arith,
        =?_iff j k,
        =?_iff k j,
        has-insert k j v files,
        still_new groups files k v (ground arith) (ground arith),
      )

  -- New files with names of their own come after the others.
  pub keys-save_groups :
      (groups : List Group) (files : Files)
      → distinct name groups ≡ true
      → all (λ j. not (has j files)) (names name groups) ≡ true
      → keys (save_groups write encode name groups files).0 ≡ keys files ++ names name groups
  unfolding save_groups
  keys-save_groups [] files apart new = sym (append-nil (keys files))
  keys-save_groups (g ∷ groups) files apart new =
      let k = name g.group_cert in
      let v = encode g.group_cert.raw in
      ap (λ r. keys r.0) (save_one g groups files)
      ∙ keys-save_groups groups (insert k v files) (ground arith)
          (still_new groups files k v (ground arith) (ground arith))
      ∙ ap (λ l. l ++ names name groups) (insert_new k v files (ground arith))
      ∙ append_assoc (keys files) (k ∷ []) (names name groups)

  module _ (decode : Bytes → Option Bytes) (parse : Bytes → Option Certificate)
      (back : (b : Bytes) → decode (encode b) ≡ some b) where
    -- A saved group is read again from its file.
    pub read_saved :
        (groups : List Group) (files : Files)
        → distinct name groups ≡ true
        → AllCarry parse groups
        → map
            (read_group decode parse (save_groups write encode name groups files).0)
            (names name groups)
          ≡ map (λ g. holds g.group_cert) groups
    unfolding save_groups AllCarry read_group
    read_saved [] files apart carry = refl
    read_saved (g ∷ groups) files apart (one, carry) =
        let k = name g.group_cert in
        let v = encode g.group_cert.raw in
        let kept = lookup-unnamed groups (insert k v files) k (ground arith) in
        let there : lookup k (insert k v files) ≡ some v =
          ground (arith, lookup-insert k k v files, =?_iff k k) in
        let saved = (save_groups write encode name groups (insert k v files)).0 in
        let first : read_group decode parse saved k ≡ holds g.group_cert =
          rw (read_group, kept ∙ there, back g.group_cert.raw, one.back) refl in
        ap (λ r. map (read_group decode parse r.0) (names name (g ∷ groups)))
          (save_one g groups files)
        ∙ ap (λ x. x ∷ map (read_group decode parse saved) (names name groups)) first
        ∙ ap (λ l. holds g.group_cert ∷ l)
            (read_saved groups (insert k v files) (ground arith) carry)
