-- ===== src/Cauth/Ids.antt =====
-- genId of cauth/cauth.go. The loop ends with a good draw only, so it runs on the list of what
-- `rand.Read` returns, where `none` is an error; the result `none` is that the list was used up.
use ifrit.Prelude.{
  Bool, true, false, Option, none, some, List, [], ◌∷◌, ◌++◌, Bytes, bytes_eq, ◌=?◌, if◌then◌else◌,
  ◌≡◌, refl, ◌||◌, Bool-cases, inl, inr,
}
use ifrit.Prelude.GoMap.{has, insert, has-insert}

unfoldable pub gen_id :
    List (Option Bytes) → List (Bytes × Bool) → Option (Bytes × List (Bytes × Bool))
gen_id [] ids = none
gen_id (none ∷ draws) ids = gen_id draws ids
gen_id (some nonce ∷ draws) ids =
    let rest = gen_id draws ids in
    if has nonce ids then rest else some (nonce, insert nonce true ids)

-- Whatever is drawn first, the loop ends when an id that was not given yet is drawn; it returns an
-- id that was not given yet and adds that one to those that were given, and no other.
pub gen_id_fresh :
    (draws rest : List (Option Bytes)) (fresh : Bytes) (ids : List (Bytes × Bool))
    → has fresh ids ≡ false
    → (id : Bytes) × (ids' : List (Bytes × Bool)) × (gen_id (draws ++ (some fresh ∷ rest)) ids
        ≡ some (id, ids'))
      × (has id ids ≡ false)
      × ((j : Bytes) → has j ids' ≡ ((id =? j) || has j ids))
unfolding gen_id
gen_id_fresh [] rest fresh ids h =
    (fresh, insert fresh true ids, rw h refl, h, λ j. has-insert fresh j true ids)
gen_id_fresh (none ∷ draws) rest fresh ids h = gen_id_fresh draws rest fresh ids h
gen_id_fresh (some nonce ∷ draws) rest fresh ids h = elim (Bool-cases (has nonce ids)) [
  | inl b ↦ rw b (gen_id_fresh draws rest fresh ids h)
  | inr b ↦ (nonce, insert nonce true ids, rw b refl, b, λ j. has-insert nonce j true ids)
]
