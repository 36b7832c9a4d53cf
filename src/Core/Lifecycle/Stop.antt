-- ===== src/Core/Lifecycle/Stop.antt =====
-- isStopping and Stop in core/node.go, with Stop of core/discovery/view.go: closing a channel twice
-- is a panic, `none`.
use ifrit.Prelude.{
  ℕ, zero, suc, ◌+◌, Bool, true, false, Option, none, some, ◌≡◌, refl, if◌then◌else◌, ◌>>=◌, List,
  [], ◌∷◌, length, Bytes, arith,
}
use ifrit.Core.Lifecycle.{send_msg, send_messages}

-- The flag, the channels of the node and of the view, and how often the failure detector and the
-- dispatcher were told to stop.
pub record Exit : Type 0 where
  pub exit_flag : Bool
  pub exit_chan : Bool
  pub view_chan : Bool
  pub fd_stops : ℕ
  pub dispatcher_stops : ℕ

-- Closes a channel that is open.
unfoldable pub close : Bool → Option Bool
close closed = if closed then none else some true

unfoldable pub is_stopping : Exit → Option (Exit × Bool)
is_stopping e = if e.exit_flag then some (e, true) else (do
  exit_chan ← close e.exit_chan
  some (record e { exit_flag = true; exit_chan = exit_chan }, false))

unfoldable pub stop : Exit → Option Exit
stop e = do
  (e1, stopping) ← is_stopping e
  if stopping then some e1 else (do
    view_chan ← close e1.view_chan
    some (record e1 {
      view_chan = view_chan;
      fd_stops = e1.fd_stops + 1;
      dispatcher_stops = e1.dispatcher_stops + 1;
    }))

abbrev pub running : Exit
running = record {
  exit_flag = false;
  exit_chan = false;
  view_chan = false;
  fd_stops = 0;
  dispatcher_stops = 0;
}

-- Calls from the client, and the one at the end of Start.
unfoldable pub stops : ℕ → Exit → Option Exit
stops zero e = some e
stops (suc n) e = do e' ← stop e; stops n e'

stop_again : (e : Exit) → e.exit_flag ≡ true → stop e ≡ some e
unfolding stop is_stopping
stop_again e h = rw (stop, is_stopping, h) refl

again : (n : ℕ) (e : Exit) → e.exit_flag ≡ true → stops n e ≡ some e
unfolding stops
again zero e h = refl
again (suc n) e h = rw (stop_again e h) (again n e h)

-- However often a running node is stopped, at least once, no channel is closed twice, and the
-- failure detector and the dispatcher are stopped once.
pub stops_once :
    (n : ℕ)
    → stops (suc n) running
      ≡ some (record {
        exit_flag = true;
        exit_chan = true;
        view_chan = true;
        fd_stops = 1;
        dispatcher_stops = 1;
      })
unfolding stops stop is_stopping close
stops_once n =
    again n
      (record {
        exit_flag = true;
        exit_chan = true;
        view_chan = true;
        fd_stops = 1;
        dispatcher_stops = 1;
      })
      refl

-- The destinations that could not be reached.
unfoldable pub unreachable : (Bytes → Option (Bytes × Bytes)) → List Bytes → ℕ
unreachable send [] = 0
unreachable send (addr ∷ dest) = elim (send addr) [
  | none ↦ suc (unreachable send dest)
  | some reply ↦ unreachable send dest
]

-- SendMessages puts one message for each destination on the channel, and a second one, an empty
-- answer without an error, for each that could not be reached.
pub length-send_messages :
    (send : Bytes → Option (Bytes × Bytes)) (dest : List Bytes)
    → length (send_messages send dest) ≡ length dest + unreachable send dest
unfolding send_messages send_msg unreachable
length-send_messages send [] = omega arith
length-send_messages send (addr ∷ dest) = ground (arith, length-send_messages send dest)
