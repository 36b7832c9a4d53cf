-- ===== src/Discovery/View/Timers.antt =====
-- The timers of core/discovery/view.go.
use ifrit.Prelude.{
  ℕ, ◌≡◌, arith, Option, none, some, Bytes, bytes_eq, ◌=?◌, =?_iff, if◌then◌else◌, ltb,
  Option-cases, inl, inr,
}
use ifrit.Prelude.GoMap.{lookup, lookup-insert}
use ifrit.Discovery.Types.{PeerRef}
use ifrit.Discovery.Note.{Note}
use ifrit.Discovery.View.{View, Timeout, start_timer}

-- What a new timer for `accused` does to the entry under its id: the time of the first accusation
-- stays, and a note that is not newer changes nothing.
abbrev pub timer_after : ℕ → PeerRef → Note → PeerRef → Option Timeout → Timeout
timer_after now accused n observer none = record {
  observer = observer;
  time_stamp = now;
  last_note = n;
  accused = accused;
}
timer_after now accused n observer (some t) =
    if ltb t.last_note.epoch n.epoch
    then record { observer = observer; time_stamp = t.time_stamp; last_note = n; accused = accused }
    else t

-- For a note of the accused peer, `StartTimer` leaves in the map, under every id, the entry that
-- stood there, but under the id of the accused peer the one of `timer_after`.
pub lookup-start_timer :
    (now : ℕ) (v : View) (accused : PeerRef) (n : Note) (observer : PeerRef) (id : Bytes)
    → n.id ≡ accused.id
    → lookup id (start_timer now v (some accused) (some n) (some observer)).0.timeout_map ≡ (
        if accused.id =? id
        then some (timer_after now accused n observer (lookup accused.id v.timeout_map))
        else lookup id v.timeout_map)
unfolding start_timer
lookup-start_timer now v accused n observer id own =
    elim (Option-cases (lookup accused.id v.timeout_map)) [
      | inl e ↦ ground (
        arith,
        =?_iff n.id accused.id,
        =?_iff accused.id id,
        lookup-insert accused.id id (timer_after now accused n observer none) v.timeout_map,
      )
      | inr (t, e) ↦ ground (
        arith,
        =?_iff n.id accused.id,
        =?_iff accused.id id,
        lookup-insert accused.id id (timer_after t.time_stamp accused n observer none)
            v.timeout_map,
      )
    ]
