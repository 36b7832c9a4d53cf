-- ===== src/Discovery/Search.antt =====
-- core/discovery/search.go: binary search over the successor list, sorted by hash. The variable
-- `end` is the code's `maxIdx + 1`, since `maxIdx` may be -1. `none` is a panic (an index out of
-- range, a division by zero), or fuel that ran out.
pub mod Rank
pub mod Loops
pub mod Correct
use ifrit.Prelude.{
  ℕ, zero, suc, ◌+◌, ◌-◌, ◌/◌, ◌%◌, Ordering, Bool, true, false, Option, none, some, List, [], ◌∷◌,
  ◌++◌, Bytes, length, get_elem?, take, drop, ◌==◌, leb, if◌then◌else◌, ◌>>=◌,
}
use ifrit.Discovery.Types.{RingId, compare_id}

pub data SearchError : Type 0 where
  id_not_found zero_length : SearchError

pub data Found : Type 0 where
  at : ℕ → Found
  failed : SearchError → Found

-- `slice[(idx+1)%length]`.
unfoldable pub succ : List RingId → ℕ → ℕ → Option RingId
succ slice idx length = if length == 0 then none else get_elem? slice ((idx + 1) % length)

-- Go's `(idx-1)%length` is negative at index 0, unless the length is 1: then `length` is added.
unfoldable pub prev : List RingId → ℕ → ℕ → Option RingId
prev slice idx length =
    if length == 0
    then none
    else get_elem? slice (if idx == 0 then length - 1 else (idx - 1) % length)

-- Where `insert` puts the new id: `some (currIdx, currIdx+1)` by the last comparison.
abbrev place : RingId → Bytes → ℕ → ℕ
place e new cur = elim (compare_id e new) [ Ordering.lt ↦ cur + 1 | _ ↦ cur ]

pub insert_loop : ℕ → List RingId → RingId → ℕ → ℕ → Option (List RingId × ℕ)
insert_loop zero slice new cur end = none
insert_loop (suc fuel) slice new cur end =
    let mid = (cur + end - 1) / 2 in
    let upper = insert_loop fuel slice new (mid + 1) end in
    let lower = insert_loop fuel slice new cur mid in
    if leb end (cur + 1)
    then (do
      e ← get_elem? slice cur
      let idx = place e new.hash cur
      some (take idx slice ++ new ∷ drop idx slice, idx))
    else (do
      e ← get_elem? slice mid
      elim (compare_id e new.hash) [
        | Ordering.lt ↦ upper
        | Ordering.gt ↦ lower
        | Ordering.eq ↦ lower
      ])

unfoldable pub insert : List RingId → RingId → ℕ → Option (List RingId × ℕ)
unfolding insert_loop
insert slice new length =
    if length == 0 then some (new ∷ [], 0) else insert_loop (length + 1) slice new 0 length

pub search_loop : ℕ → List RingId → Bytes → ℕ → ℕ → Option Found
search_loop zero slice id cur end = none
search_loop (suc fuel) slice id cur end =
    let mid = (cur + end - 1) / 2 in
    let upper = search_loop fuel slice id (mid + 1) end in
    let lower = search_loop fuel slice id cur mid in
    if leb end (cur + 1)
    then (do
      e ← get_elem? slice cur
      elim (compare_id e id) [ Ordering.eq ↦ some (at cur) | _ ↦ some (failed id_not_found) ])
    else (do
      e ← get_elem? slice mid
      elim (compare_id e id) [
        | Ordering.lt ↦ upper
        | Ordering.gt ↦ lower
        | Ordering.eq ↦ some (at mid)
      ])

unfoldable pub search : List RingId → Bytes → ℕ → Option Found
unfolding search_loop
search slice id length =
    if length == 0 then some (failed zero_length) else search_loop (length + 1) slice id 0 length

-- The successor and the predecessor, in this order.
abbrev pub around : List RingId → ℕ → ℕ → Option (RingId × RingId)
around slice idx length = do
  successor ← succ slice idx length
  predecessor ← prev slice idx length
  some (successor, predecessor)

pub neighbours_loop : ℕ → List RingId → Bytes → ℕ → ℕ → ℕ → Option (RingId × RingId)
neighbours_loop zero slice id cur end length = none
neighbours_loop (suc fuel) slice id cur end length =
    let mid = (cur + end - 1) / 2 in
    let upper = neighbours_loop fuel slice id (mid + 1) end length in
    let lower = neighbours_loop fuel slice id cur mid length in
    if leb end (cur + 1)
    then (do
      e ← get_elem? slice cur
      elim (compare_id e id) [
        | Ordering.lt ↦ (do successor ← succ slice cur length; some (successor, e))
        | Ordering.gt ↦ (do predecessor ← prev slice cur length; some (e, predecessor))
        | Ordering.eq ↦ around slice cur length
      ])
    else (do
      e ← get_elem? slice mid
      elim (compare_id e id) [
        | Ordering.lt ↦ upper
        | Ordering.gt ↦ lower
        | Ordering.eq ↦ around slice mid length
      ])

unfoldable pub find_succ_and_prev : List RingId → Bytes → ℕ → Option (RingId × RingId)
unfolding neighbours_loop succ prev
find_succ_and_prev slice id length = neighbours_loop (length + 1) slice id 0 length length
