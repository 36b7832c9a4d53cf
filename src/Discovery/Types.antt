-- ===== src/Discovery/Types.antt =====
-- core/discovery/ring.go and peer.go: ring ids, and what the package knows of a peer that never
-- changes.
use ifrit.Prelude.{ℕ, ◌%◌, ◌^◌, Ordering, Bool, Option, List, ◌++◌, Bytes}
use ifrit.Bytes.{bytes_compare, bytes_equal, itoa}

-- The fields of an `x509.Certificate` that the code reads; `public_key` is `none` for a key that is
-- not an ECDSA key.
pub record Certificate : Type 0 where
  pub raw : Bytes
  pub locality : List Bytes
  pub subject_key_id : Bytes
  pub public_key : Option Bytes
  pub extensions : List (List ℕ × Bytes)

-- The fields of `Peer` that `newPeer` sets and nothing writes again. A pointer to a peer is such a
-- value: the mutable fields stand in a heap, under the id.
pub record PeerRef : Type 0 where
  pub id : Bytes
  pub addr : Bytes
  pub ping_addr : Bytes
  pub http_addr : Bytes
  pub cert : Certificate
  pub public_key : Bytes

-- An entry of a ring. An id without a peer, which the code builds to search, enters by its hash.
pub record RingId : Type 0 where
  pub p : PeerRef
  pub hash : Bytes

unfoldable pub compare_id : RingId → Bytes → Ordering
compare_id ri other = bytes_compare ri.hash other

unfoldable pub equal_id : RingId → Bytes → Bool
equal_id ri other = bytes_equal ri.hash other

abbrev pub u32 : ℕ → ℕ
u32 n = n % 2 ^ 32

-- `crypto/sha256` is not modelled: it is the argument `sha256`.
unfoldable pub hash_id : (Bytes → Bytes) → ℕ → Bytes → Bytes
hash_id sha256 ring_num id = sha256 (id ++ itoa ring_num)
