-- ===== src/Worm/Compare.antt =====
-- The hosts and the comparisons of worm/worm.go.
use ifrit.Prelude.{
  ℕ, ◌+◌, ◌/◌, Bool, true, false, not, ◌&&◌, ◌||◌, some, List, [], ◌∷◌, ◌++◌, Bytes, bytes_eq,
  length, ltb, ◌<◌, ◌==◌, ◌=?◌, if◌then◌else◌, ◌≡◌, refl, ◌∙◌, ap, arith, Bool-cases, inl, inr,
  Option, none,
}
use ifrit.Prelude.GoMap.{has-insert, has_same}
use ifrit.Discovery.Types.{u32}
use ifrit.Worm.{
  Worm, Cmp, host_exist, add_host, lines, add_hosts, add_new_host, do_host_request, cmp_inner,
  cmp_one, cmp_outer, cmp_states,
}

-- The host is one of the lines that are not empty.
unfoldable pub listed : Bytes → List Bytes → Bool
listed host [] = false
listed host (h ∷ hosts) = (not (length h == 0) && (h =? host)) || listed host hosts

host_exist-add_new_host :
    (w : Worm) (h host : Bytes)
    → host_exist (add_new_host w h) host
      ≡ ((not (length h == 0) && (h =? host)) || host_exist w host)
unfolding add_new_host add_host host_exist
host_exist-add_new_host w h host =
    ground (arith, has-insert h host true w.host_map, has_same h host w.host_map)

same_states : (w : Worm) (h : Bytes) → (add_new_host w h).state_map ≡ w.state_map
unfolding add_new_host add_host
same_states w h = ground arith

add_hosts-listed :
    (w : Worm) (hosts : List Bytes) (host : Bytes)
    → host_exist (add_hosts w hosts) host ≡ (listed host hosts || host_exist w host)
unfolding add_hosts listed
add_hosts-listed w [] host = refl
add_hosts-listed w (h ∷ hosts) host =
    add_hosts-listed (add_new_host w h) hosts host
    ∙ ground (arith, host_exist-add_new_host w h host)

add_hosts_states : (w : Worm) (hosts : List Bytes) → (add_hosts w hosts).state_map ≡ w.state_map
unfolding add_hosts
add_hosts_states w [] = refl
add_hosts_states w (h ∷ hosts) = add_hosts_states (add_new_host w h) hosts ∙ same_states w h

-- After the answer of a host the worm knows the hosts that it knew and those of the lines of the
-- answer that are not empty, and no others; the states stay.
pub do_host_request-listed :
    (w : Worm) (buf host : Bytes)
    → (host_exist (do_host_request w (some buf)) host
        ≡ (listed host (lines buf) || host_exist w host))
      × ((do_host_request w (some buf)).state_map ≡ w.state_map)
unfolding do_host_request
do_host_request-listed w buf host =
    (add_hosts-listed w (lines buf) host, add_hosts_states w (lines buf))

-- The comparisons, in the order of the loops: every state against every state of another host, where
-- neither is nil.
unfoldable pub against : Bytes → Option Bytes → List (Bytes × Option Bytes) → List (Bytes × Bytes)
against k none l = []
against k (some s) [] = []
against k (some s) ((k2, none) ∷ rest) = against k (some s) rest
against k (some s) ((k2, some s2) ∷ rest) =
    let more = against k (some s) rest in if k =? k2 then more else (s, s2) ∷ more

unfoldable pub comparisons :
    List (Bytes × Option Bytes) → List (Bytes × Option Bytes) → List (Bytes × Bytes)
comparisons all [] = []
comparisons all ((k, s) ∷ rest) = against k s all ++ comparisons all rest

-- The value of the last comparison.
unfoldable pub last_value : Cmp → ℕ → List (Bytes × Bytes) → ℕ
last_value cmp v [] = v
last_value cmp v ((s, s2) ∷ rest) = last_value cmp (cmp s s2).0 rest

unfoldable pub errors_of : Cmp → List (Bytes × Bytes) → ℕ
errors_of cmp [] = 0
errors_of cmp ((s, s2) ∷ rest) = (if (cmp s s2).1 then 1 else 0) + errors_of cmp rest

last_value-append :
    (cmp : Cmp) (v : ℕ) (l m : List (Bytes × Bytes))
    → last_value cmp v (l ++ m) ≡ last_value cmp (last_value cmp v l) m
unfolding last_value
last_value-append cmp v [] m = refl
last_value-append cmp v ((s, s2) ∷ l) m = last_value-append cmp (cmp s s2).0 l m

errors_of-append :
    (cmp : Cmp) (l m : List (Bytes × Bytes))
    → errors_of cmp (l ++ m) ≡ errors_of cmp l + errors_of cmp m
unfolding errors_of
errors_of-append cmp [] m = omega arith
errors_of-append cmp ((s, s2) ∷ l) m = omega (arith, errors_of-append cmp l m)

cmp_inner-against :
    (cmp : Cmp) (k : Bytes) (s : Option Bytes) (l : List (Bytes × Option Bytes)) (v e : ℕ)
    → cmp_inner cmp k s l (v, e)
      ≡ (last_value cmp v (against k s l), e + errors_of cmp (against k s l))
unfolding cmp_inner against last_value errors_of cmp_one
cmp_inner-against cmp k none [] v e = ground arith
cmp_inner-against cmp k (some s) [] v e = ground arith
cmp_inner-against cmp k none (x ∷ rest) v e = cmp_inner-against cmp k none rest v e
cmp_inner-against cmp k (some s) ((k2, none) ∷ rest) v e = cmp_inner-against cmp k (some s) rest v e
cmp_inner-against cmp k (some s) ((k2, some s2) ∷ rest) v e =
    let more = against k (some s) rest in
    elim (Bool-cases (k =? k2)) [
      | inl own ↦ rw own (cmp_inner-against cmp k (some s) rest v e)
      | inr other ↦ elim (Bool-cases (cmp s s2).1) [
        | inl wrong ↦
            rw (other, wrong)
              (cmp_inner-against cmp k (some s) rest (cmp s s2).0 (e + 1)
                ∙ ap (λ n. (last_value cmp (cmp s s2).0 more, n)) (omega arith))
        | inr right ↦
            rw (other, right)
              (cmp_inner-against cmp k (some s) rest (cmp s s2).0 e
                ∙ ap (λ n. (last_value cmp (cmp s s2).0 more, n)) (omega arith))
      ]
    ]

cmp_outer-comparisons :
    (cmp : Cmp) (all l : List (Bytes × Option Bytes)) (v e : ℕ)
    → cmp_outer cmp all l (v, e)
      ≡ (last_value cmp v (comparisons all l), e + errors_of cmp (comparisons all l))
unfolding cmp_outer comparisons last_value errors_of
cmp_outer-comparisons cmp all [] v e = ground arith
cmp_outer-comparisons cmp all ((k, s) ∷ rest) v e =
    rw
      (
        cmp_inner-against cmp k s all v e,
        last_value-append cmp v (against k s all) (comparisons all rest),
        errors_of-append cmp (against k s all) (comparisons all rest),
        cmp_outer-comparisons cmp all rest (last_value cmp v (against k s all))
            (e + errors_of cmp (against k s all)),
      )
      (ap (λ n. (last_value cmp (last_value cmp v (against k s all)) (comparisons all rest), n))
        (omega arith))

-- With at least one state, cmpStates adds to the errors, on 32 bits, the number of comparisons with
-- an error divided by the number of states, and makes the value of the last comparison the maximal
-- block when it is larger; the values of the other comparisons do not count.
pub cmp_states-comparisons :
    (cmp : Cmp) (w : Worm)
    → 0 < length w.state_map
    → cmp_states cmp w ≡ record w {
      total_state_errors = u32 (
          w.total_state_errors
          + u32 (errors_of cmp (comparisons w.state_map w.state_map) / length w.state_map));
      max_block =
          let last = last_value cmp 0 (comparisons w.state_map w.state_map) in
          if ltb w.max_block last then last else w.max_block;
    }
unfolding cmp_states
cmp_states-comparisons cmp w h =
    let all = comparisons w.state_map w.state_map in
    let some_state : (length w.state_map == 0) ≡ false = ground arith in
    let none_more : 0 + errors_of cmp all ≡ errors_of cmp all = omega arith in
    rw (cmp_states, cmp_outer-comparisons cmp w.state_map w.state_map 0 0, some_state, none_more)
      refl
