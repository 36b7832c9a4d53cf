-- ===== src/Core/Run/Total.antt =====
-- core/: a node handles every event without a panic, after any events before.
use ifrit.Prelude.{
  false, ℕ, not, ◌&&◌, if◌then◌else◌, ◌+◌, ◌≤◌, ◌≡◌, refl, subst, some, Bytes, length, arith,
}
use ifrit.Discovery.Ring.Invariant.{IsCollisionFree}
use ifrit.Discovery.View.{View, exists}
use ifrit.Core.Node.{Services, Node}
use ifrit.Core.Run.{
  Event, spreads, gossips, monitors, starts, ticks, sets_gossip, sets_handler, step, certificates,
  Fits, Reachable, begun, later, set_external_gossip_content, set_gossip_handler,
}
use ifrit.Core.Safety.Invariant.{ViewInv, Next, Next-same, epoch_of}
use ifrit.Core.Safety.Accusations.{CanSign}
use ifrit.Core.Safety.Handler.{spread-Next}
use ifrit.Core.Safety.Rounds.{gossip-Next, start-Next}
use ifrit.Core.Safety.Monitor.{monitor-Next, check_timeouts-Next}
use ifrit.Core.Safety.Begin.{new_node-ViewInv}

module _ (sv : Services) (free : IsCollisionFree sv.sha256) (can : CanSign sv) where
  -- Every event is handled without a panic from a state with the invariant.
  step-Next :
      (n : Node) (e : Event)
      → ViewInv sv.sha256 n.view
      → Fits n e
      → (n' : Node) × (step sv n e ≡ some n') × Next sv.sha256 (certificates e) n.view n'.view
  unfolding step set_external_gossip_content set_gossip_handler
  step-Next n (spreads cert args) inv few =
      let (n', r, q, next) = spread-Next sv free can n cert args inv (omega arith) in
      (n', rw q refl, next)
  step-Next n (gossips now replies) inv few = gossip-Next sv free can now n replies inv few
  step-Next n (monitors now answers) inv few = monitor-Next sv now n answers inv
  step-Next n (starts now addrs replies) inv few =
      start-Next sv free can now n addrs replies inv few
  step-Next n (ticks now) inv few =
      let (v, q, next) = check_timeouts-Next sv.sha256 now n.view inv in
      (record n { view = v }, rw q refl, next)
  step-Next n (sets_gossip content) inv few =
      (set_external_gossip_content n content, refl, Next-same sv.sha256 n.view inv)
  step-Next n (sets_handler handler) inv few =
      (set_gossip_handler n handler, refl, Next-same sv.sha256 n.view inv)

-- When no two byte strings have the same hash, and notes can be signed, every node that comes out of
-- `NewNode` for at most 32 rings and any events, each while fewer than 2 ^ 32 - 2 peers can be known
-- with its certificates, has the invariant: the live peers are those on every ring, and are known;
-- the known peers stand under their own ids, and the own peer is not among them; the own note is
-- there, and all notes and accusations are signed.
pub Reachable-ViewInv :
    (sv : Services) (n : Node)
    → IsCollisionFree sv.sha256
    → CanSign sv
    → Reachable sv n
    → ViewInv sv.sha256 n.view
Reachable-ViewInv sv n free can (begun cm config n' pings few fits h) =
    new_node-ViewInv sv free cm config n pings few fits h
Reachable-ViewInv sv n free can (later m n' e before fits h) =
    let (m', q, next) = step-Next sv free can m e (Reachable-ViewInv sv m free can before) fits in
    let same : m' ≡ n = ground (arith, q, h) in
    subst (λ (x : Node). ViewInv sv.sha256 x.view) same next.inv

-- The epoch of the note of a known peer.
abbrev pub known_epoch : View → Bytes → ℕ
known_epoch v id = if exists v id then epoch_of (v.heap id).note else 0

no_older :
    (sha256 : Bytes → Bytes) (c : ℕ) (v w : View) (id : Bytes)
    → Next sha256 c v w
    → ((exists v id && not (exists w id)) ≡ false) × (known_epoch v id ≤ known_epoch w id)
no_older sha256 c v w id next =
    (ground (arith, next.kept id), ground (arith, next.kept id, next.epochs id))

-- When no two byte strings have the same hash, and notes can be signed, no event makes a node panic
-- that comes out of `NewNode` for at most 32 rings and any events, as long as fewer than 2 ^ 32 - 2
-- peers can be known with the certificates of each event: a call of `Spread` by anybody with any
-- message, a round of `Gossip` with any replies, a round of `Monitor` with any answers, the start,
-- a tick or a setter. Afterwards the own peer is the same, at most the peers of the certificates
-- have become known, nobody that was known is forgotten, and no known peer has an older note.
pub step_total :
    (sv : Services) (n : Node) (e : Event)
    → IsCollisionFree sv.sha256
    → CanSign sv
    → Reachable sv n
    → Fits n e
    → (n' : Node) × (step sv n e ≡ some n')
      × Reachable sv n'
      × (n'.view.self ≡ n.view.self)
      × (length n'.view.view_map ≤ length n.view.view_map + certificates e)
      × ((id : Bytes)
          → ((exists n.view id && not (exists n'.view id)) ≡ false)
            × (known_epoch n.view id ≤ known_epoch n'.view id))
step_total sv n e free can before fits =
    let (n', q, next) = step-Next sv free can n e (Reachable-ViewInv sv n free can before) fits in
    (
      n',
      q,
      later n n' e before fits q,
      next.self,
      next.few,
      λ id. no_older sv.sha256 (certificates e) n.view n'.view id next,
    )
