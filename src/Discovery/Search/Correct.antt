-- ===== src/Discovery/Search/Correct.antt =====
-- The three binary searches end, read no entry out of range, and find the rank.
use ifrit.Prelude.{
  sym, ◌∙◌, ℕ, suc, ◌+◌, ◌<◌, Ordering, ◌≡◌, refl, false, some, List, [], ◌∷◌, arith, Bytes, length,
  get_elem?, if◌then◌else◌, ◌==◌,
}
use ifrit.Bytes.{bytes_compare, bytes_compare_refl}
use ifrit.Discovery.Types.{RingId, compare_id}
use ifrit.Discovery.Search.{
  at, failed, id_not_found, zero_length, insert, search, around, find_succ_and_prev,
}
use ifrit.Discovery.Search.Rank.{rank_below, IsAbsent, IsSorted, rank, rank-le, get_elem?_bound}
use ifrit.Discovery.Search.Loops.{
  placed, equal-rank, gap, insert_loop_lem, search_loop_hit, search_loop_miss, neighbours_loop_hit,
  neighbours_loop_miss,
}

suc_test : (n : ℕ) → (suc n == 0) ≡ false
suc_test n = ground arith

-- On a sorted list of the given length, `insert` ends without a panic, and returns the list with
-- the new entry at the rank of its hash, and this rank.
pub insert-placed :
    (s : List RingId) (new : RingId) → IsSorted s → insert s new (length s) ≡ some (placed s new)
unfolding insert rank
insert-placed [] new sorted = refl
insert-placed (x ∷ xs) new sorted = rw (suc_test (length xs)) (
    insert_loop_lem (x ∷ xs) sorted new (length (x ∷ xs) + 1) 0 (length (x ∷ xs)) (omega arith)
      (omega arith) (omega arith) (omega arith) (rank-le new.hash (x ∷ xs)))

-- On a sorted list of the given length, `search` for the hash of the entry at `i` ends without a
-- panic, and returns `i`.
pub search_hit :
    (s : List RingId) (i : ℕ) (e : RingId)
    → IsSorted s
    → get_elem? s i ≡ some e
    → search s e.hash (length s) ≡ some (at i)
unfolding search compare_id
search_hit [] i e sorted q = ground arith
search_hit (x ∷ xs) i e sorted q =
    let s = x ∷ xs in
    let k : compare_id e e.hash ≡ Ordering.eq = bytes_compare_refl e.hash in
    let r : i ≡ rank e.hash s = equal-rank s sorted e.hash i e q k in
    rw (r, suc_test (length xs))
      (search_loop_hit s sorted e.hash e (length s + 1) 0 (length s) (rw (← r) q) k (omega arith)
        (omega arith) (omega arith) (rw (← r) (get_elem?_bound s i e q)))

-- On a sorted list of the given length, `search` for a hash that no entry has ends without a
-- panic, and returns the error for an empty list or for an id that is not there.
pub search_miss :
    (s : List RingId) (h : Bytes)
    → IsSorted s
    → IsAbsent h s
    → search s h (length s) ≡ some (failed (if length s == 0 then zero_length else id_not_found))
unfolding search
search_miss [] h sorted no_hit = refl
search_miss (x ∷ xs) h sorted no_hit = rw (suc_test (length xs)) (
    search_loop_miss (x ∷ xs) sorted h (length (x ∷ xs) + 1) 0 (length (x ∷ xs)) no_hit
      (omega arith) (omega arith) (omega arith))

-- On a sorted list of the given length, `findSuccAndPrev` for the hash of the entry at `i` returns
-- the entries after and before `i`, round the circle.
pub neighbours_hit :
    (s : List RingId) (i : ℕ) (e : RingId)
    → IsSorted s
    → get_elem? s i ≡ some e
    → find_succ_and_prev s e.hash (length s) ≡ around s i (length s)
unfolding find_succ_and_prev compare_id
neighbours_hit s i e sorted q =
    let k : compare_id e e.hash ≡ Ordering.eq = bytes_compare_refl e.hash in
    let r : i ≡ rank e.hash s = equal-rank s sorted e.hash i e q k in
    rw r (
      neighbours_loop_hit s sorted e.hash e (length s + 1) 0 (length s) (rw (← r) q) k (omega arith)
        (omega arith) (omega arith) (rw (← r) (get_elem?_bound s i e q)))

-- On a sorted list of the given length that is not empty, `findSuccAndPrev` for a hash that no
-- entry has returns the entries on both sides of the gap at its rank, round the circle.
pub neighbours_miss :
    (s : List RingId) (h : Bytes)
    → IsSorted s
    → 0 < length s
    → IsAbsent h s
    → find_succ_and_prev s h (length s) ≡ gap s (rank h s)
unfolding find_succ_and_prev
neighbours_miss s h sorted some_entry no_hit =
    neighbours_loop_miss s sorted h (length s + 1) 0 (length s) no_hit (omega arith) some_entry
      (omega arith) (omega arith) (rank-le h s)

-- An entry stands at one index only.
pub one_index :
    (s : List RingId) (i j : ℕ) (e : RingId)
    → IsSorted s
    → get_elem? s i ≡ some e
    → get_elem? s j ≡ some e
    → i ≡ j
unfolding compare_id
one_index s i j e sorted p q =
    equal-rank s sorted e.hash i e p (bytes_compare_refl e.hash)
    ∙ sym (equal-rank s sorted e.hash j e q (bytes_compare_refl e.hash))

-- A smaller index is a smaller hash.
pub index_lt :
    (s : List RingId) (i j : ℕ) (a b : RingId)
    → IsSorted s
    → get_elem? s i ≡ some a
    → get_elem? s j ≡ some b
    → i < j
    → bytes_compare a.hash b.hash ≡ Ordering.lt
unfolding compare_id
index_lt s i j a b sorted p q h =
    rank_below b.hash s i a p
      (rw (← equal-rank s sorted b.hash j b q (bytes_compare_refl b.hash)) h)
