-- ===== src/Worm.antt =====
-- The package worm/ (worm.go and request.go): the hosts of a network, found by asking each of them,
-- and the comparison of their states. What a host answers and the order of a map are arguments.
pub mod Compare
use ifrit.Prelude.{
  ℕ, ◌+◌, ◌/◌, ◌%◌, ◌^◌, Bool, true, false, Option, none, some, List, [], ◌∷◌, map, Bytes, bytes_eq,
  length, ltb, ◌==◌, ◌=?◌, if◌then◌else◌,
}
use ifrit.Prelude.GoMap.{has, insert}
use ifrit.Discovery.Types.{u32}

pub record Worm : Type 0 where
  pub host_map : List (Bytes × Bool)
  pub state_map : List (Bytes × Option Bytes)
  pub max_block : ℕ
  pub total_state_errors : ℕ

unfoldable pub new_worm : Worm
new_worm = record { host_map = []; state_map = []; max_block = 0; total_state_errors = 0 }

unfoldable pub host_exist : Worm → Bytes → Bool
host_exist w host = has host w.host_map

unfoldable pub add_host : Worm → Bytes → Worm
add_host w host = record w { host_map = insert host true w.host_map }

unfoldable pub get_hosts : Worm → List Bytes
get_hosts w = map (λ e. e.0) w.host_map

-- A state is a slice, `none` for nil.
unfoldable pub add_state : Worm → Bytes → Option Bytes → Worm
add_state w host state = record w { state_map = insert host state w.state_map }

-- `strings.Split(s, "\n")`.
unfoldable pub lines : Bytes → List Bytes
lines [] = [] ∷ []
lines (c ∷ s) = cons_line (c == 10) c (lines s)
  where
    cons_line : Bool → ℕ → List Bytes → List Bytes
    cons_line true c l = [] ∷ l
    cons_line false c [] = (c ∷ []) ∷ []
    cons_line false c (line ∷ l) = (c ∷ line) ∷ l

-- One host of an answer.
unfoldable pub add_new_host : Worm → Bytes → Worm
add_new_host w h = if length h == 0 then w else (if host_exist w h then w else add_host w h)

unfoldable pub add_hosts : Worm → List Bytes → Worm
add_hosts w [] = w
add_hosts w (h ∷ hosts) = add_hosts (add_new_host w h) hosts

-- The body of the answer; an error is `none`.
unfoldable pub do_host_request : Worm → Option Bytes → Worm
do_host_request w none = w
do_host_request w (some buf) = add_hosts w (lines buf)

unfoldable pub do_state_request : Worm → Bytes → Option Bytes → Worm
do_state_request w host none = w
do_state_request w host (some buf) = add_state w host (some buf)

-- `stateCmp`: the value, and whether there is an error.
abbrev pub Cmp : Type 0
Cmp = Bytes → Bytes → ℕ × Bool

-- One turn of the inner loop: `maxBlock` and `errors`.
unfoldable pub cmp_one : Cmp → Bytes → Option Bytes → Bytes → Option Bytes → ℕ × ℕ → ℕ × ℕ
cmp_one cmp k none k2 s2 acc = acc
cmp_one cmp k (some s) k2 none acc = acc
cmp_one cmp k (some s) k2 (some s2) (max_block, errors) =
    if k =? k2
    then (max_block, errors)
    else ((cmp s s2).0, (if (cmp s s2).1 then errors + 1 else errors))

unfoldable pub cmp_inner : Cmp → Bytes → Option Bytes → List (Bytes × Option Bytes) → ℕ × ℕ → ℕ × ℕ
unfolding cmp_one
cmp_inner cmp k s [] acc = acc
cmp_inner cmp k s ((k2, s2) ∷ rest) acc = cmp_inner cmp k s rest (cmp_one cmp k s k2 s2 acc)

unfoldable pub cmp_outer :
    Cmp → List (Bytes × Option Bytes) → List (Bytes × Option Bytes) → ℕ × ℕ → ℕ × ℕ
cmp_outer cmp all [] acc = acc
cmp_outer cmp all ((k, s) ∷ rest) acc = cmp_outer cmp all rest (cmp_inner cmp k s all acc)

unfoldable pub cmp_states : Cmp → Worm → Worm
cmp_states cmp w =
    let (max_block, errors) = cmp_outer cmp w.state_map w.state_map (0, 0) in
    if length w.state_map == 0 then w else record w {
      total_state_errors = u32 (w.total_state_errors + u32 (errors / length w.state_map));
      max_block = if ltb w.max_block max_block then max_block else w.max_block;
    }
