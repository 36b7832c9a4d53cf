-- ===== src/Core/Detector/Probe.antt =====
-- What `probe` of core/failure_detector.go reports.
use ifrit.Prelude.{
  ℕ, zero, suc, ◌<◌, ◌≤◌, ◌==◌, ◌∙◌, ◌+◌, ◌%◌, ◌^◌, ◌≡◌, ◌≢◌, refl, arith, none, some, leb,
  if◌then◌else◌,
}
use ifrit.Discovery.Types.{PeerRef}
use ifrit.Discovery.Peer.{PeerState, increment_ping}
use ifrit.Core.Node.{Services, Pong}
use ifrit.Core.Detector.{dead, ping_failed, probe}

-- `probe` reports an error whatever the peer answers, a correctly signed pong too, and never resets
-- the count of failed pings: it clears the signature of the pong before it looks for it.
pub probe_never_succeeds :
    (sv : Services) (max_failed_pings : ℕ) (dest : PeerRef) (st : PeerState) (pong : Pong)
    → ((probe sv max_failed_pings dest st (some pong)).1 ≢ none)
      × ((probe sv max_failed_pings dest st (some pong)).1 ≢ some dead)
      × ((probe sv max_failed_pings dest st (some pong)).0 ≡ st)
unfolding probe
probe_never_succeeds sv max_failed_pings dest st pong = (ground arith, ground arith, ground arith)

-- A ping without an answer is counted, and the peer is dead exactly when the count has reached the
-- limit; the count wraps at 32 bits.
pub probe_no_answer :
    (sv : Services) (max_failed_pings : ℕ) (dest : PeerRef) (st : PeerState)
    → ((probe sv max_failed_pings dest st none).0.n_ping ≡ (st.n_ping + 1) % 2 ^ 32)
      × ((probe sv max_failed_pings dest st none).1 ≡ (
          if leb max_failed_pings ((st.n_ping + 1) % 2 ^ 32) then some dead else some ping_failed))
      × ((probe sv max_failed_pings dest st none).0.note ≡ st.note)
      × ((probe sv max_failed_pings dest st none).0.accusations ≡ st.accusations)
unfolding probe increment_ping
probe_no_answer sv max_failed_pings dest st = (refl, refl, refl, refl)

-- Rounds in which the peer does not answer.
unfoldable pub unanswered : Services → ℕ → PeerRef → ℕ → PeerState → PeerState
unanswered sv max dest zero st = st
unanswered sv max dest (suc n) st = unanswered sv max dest n (probe sv max dest st none).0

n_ping-unanswered :
    (sv : Services) (max : ℕ) (dest : PeerRef) (n : ℕ) (st : PeerState)
    → st.n_ping + n < 2 ^ 32
    → (unanswered sv max dest n st).n_ping ≡ st.n_ping + n
unfolding unanswered
n_ping-unanswered sv max dest zero st h = omega arith
n_ping-unanswered sv max dest (suc n) st h =
    let (one, _, _, _) = probe_no_answer sv max dest st in
    omega (
      arith,
      one,
      n_ping-unanswered sv max dest n (probe sv max dest st none).0 (omega (arith, one, h)),
    )

-- A peer with a ping count of 0 that answers no ping is reported dead by the probe that reaches the
-- limit, and by no earlier one, when the limit is at least 1 and fits in 32 bits.
pub unanswered_dead :
    (sv : Services) (max n : ℕ) (dest : PeerRef) (st : PeerState)
    → st.n_ping ≡ 0
    → 1 ≤ max
    → max < 2 ^ 32
    → n < max
    → ((probe sv max dest (unanswered sv max dest n st) none).1
        ≡ (if n + 1 == max then some dead else some ping_failed))
unanswered_dead sv max n dest st fresh some_limit small early =
    let count = n_ping-unanswered sv max dest n st (omega arith) in
    let (_, answer, _, _) = probe_no_answer sv max dest (unanswered sv max dest n st) in
    let next : ((unanswered sv max dest n st).n_ping + 1) % 2 ^ 32 ≡ n + 1 = omega arith in
    answer ∙ ground (arith, next)
