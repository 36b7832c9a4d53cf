-- ===== src/Comm/Connections/Open.antt =====
-- Which connections of comm/client.go are open.
use ifrit.Prelude.{
  ℕ, ◌<◌, ◌⊎◌, inl, inr, ◌||◌, Bool, true, false, some, List, [], ◌∷◌, Bytes, bytes_eq, ◌=?◌,
  =?_iff, ◌==◌, ◌≡◌, arith, Option-cases, Bool-cases,
}
use ifrit.Prelude.GoMap.{lookup, lookup-insert, lookup-delete}
use ifrit.Comm.Connections.{GrpcClient, new_client, dial, close_conn, Used, start, dials, closes}

unfoldable pub is_closed : ℕ → List ℕ → Bool
is_closed i [] = false
is_closed i (j ∷ l) = (j == i) || is_closed i l

-- A connection of the map was dialed, stands under one address and is open, and a connection that
-- was dialed is in the map or closed.
pub record OpenInv (c : GrpcClient) : Type 0 where
  pub made : (a : Bytes) (i : ℕ) → lookup a c.all_connections ≡ some i → i < c.next
  pub one :
      (a b : Bytes) (i : ℕ)
      → lookup a c.all_connections ≡ some i
      → lookup b c.all_connections ≡ some i
      → a ≡ b
  pub opened :
      (a : Bytes) (i : ℕ) → lookup a c.all_connections ≡ some i → is_closed i c.closed ≡ false
  pub old : (i : ℕ) → is_closed i c.closed ≡ true → i < c.next
  pub kept :
      (i : ℕ)
      → i < c.next
      → (is_closed i c.closed ≡ true) ⊎ ((a : Bytes) × (lookup a c.all_connections ≡ some i))

empty_OpenInv : (c : GrpcClient) → new_client true ≡ some c → OpenInv c
unfolding new_client is_closed lookup
empty_OpenInv c h = record {
  made = λ a i k. ground arith;
  one = λ a b i k l. ground arith;
  opened = λ a i k. ground arith;
  old = λ i k. ground arith;
  kept = λ i k. ground arith;
}

dial-OpenInv :
    (c : GrpcClient) (addr : Bytes) (dialed : Bool) → OpenInv c → OpenInv (dial c addr dialed).0
unfolding dial
dial-OpenInv c addr dialed inv = elim (Option-cases (lookup addr c.all_connections)) [
  | inr (conn, there) ↦ rw (dial, there) inv
  | inl gone ↦ elim (Bool-cases dialed) [
    | inr failed ↦ rw (dial, gone, failed) inv
    | inl ok ↦
        rw (dial, gone, ok)
          (record {
            made = λ a i h.
                ground (arith, lookup-insert addr a c.next c.all_connections, inv.made a i);
            one = λ a b i h k. ground (
              arith,
              lookup-insert addr a c.next c.all_connections,
              lookup-insert addr b c.next c.all_connections,
              inv.made a i,
              inv.made b i,
              inv.one a b i,
              =?_iff addr a,
              =?_iff addr b,
            );
            opened = λ a i h. ground (
              arith,
              lookup-insert addr a c.next c.all_connections,
              inv.opened a i,
              Bool-cases (is_closed i c.closed),
              inv.old i,
            );
            old = λ i h. ground (arith, inv.old i h);
            kept = λ i h. elim (Bool-cases (i == c.next)) [
              | inl new ↦ inr (
                addr,
                ground (arith, lookup-insert addr addr c.next c.all_connections, =?_iff addr addr),
              )
              | inr earlier ↦ elim (inv.kept i (ground arith)) [
                | inl shut ↦ inl shut
                | inr (a, q) ↦ inr (
                  a,
                  ground (arith, lookup-insert addr a c.next c.all_connections, =?_iff addr a),
                )
              ]
            ];
          })
  ]
]

close_conn-OpenInv : (c : GrpcClient) (addr : Bytes) → OpenInv c → OpenInv (close_conn c addr)
unfolding close_conn is_closed
close_conn-OpenInv c addr inv = elim (Option-cases (lookup addr c.all_connections)) [
  | inl gone ↦ rw (close_conn, gone) inv
  | inr (conn, there) ↦
      rw (close_conn, there)
        (record {
          made = λ a i h. ground (arith, lookup-delete addr a c.all_connections, inv.made a i);
          one = λ a b i h k. ground (
            arith,
            lookup-delete addr a c.all_connections,
            lookup-delete addr b c.all_connections,
            inv.one a b i,
          );
          opened = λ a i h. ground (
            arith,
            lookup-delete addr a c.all_connections,
            inv.opened a i,
            inv.one a addr i,
            =?_iff addr a,
          );
          old = λ i h. ground (arith, inv.old i, inv.made addr conn there);
          kept = λ i h. elim (inv.kept i h) [
            | inl shut ↦ inl (ground (arith, shut))
            | inr (a, q) ↦ elim (Bool-cases (addr =? a)) [
              | inl same ↦ inl (ground (arith, =?_iff addr a))
              | inr other ↦ inr (a, ground (arith, lookup-delete addr a c.all_connections))
            ]
          ];
        })
]

-- However the dials and the closes of the goroutines are ordered after newClient, and whichever
-- dials fail: a connection of the map was dialed, stands under one address only and is not closed,
-- and every connection that was dialed is in the map or was closed.
pub Used-OpenInv : (c : GrpcClient) → Used c → OpenInv c
Used-OpenInv _ (start c h) = empty_OpenInv c h
Used-OpenInv _ (dials c addr dialed u) = dial-OpenInv c addr dialed (Used-OpenInv c u)
Used-OpenInv _ (closes c addr u) = close_conn-OpenInv c addr (Used-OpenInv c u)
