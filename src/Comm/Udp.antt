-- ===== src/Comm/Udp.antt =====
-- comm/udp.go: the pings and the server that answers them. The resolver, the sockets and the messages
-- of protobuf are arguments; an error of any of them is `none`.
use ifrit.Prelude.{
  ap, zero, suc, false, get_elem?, >>=-eq-some, Option-cases, inl, inr, arith, ◌∙◌, ℕ, ◌≡◌, refl,
  Bool, true, Option, none, some, List, [], ◌∷◌, Bytes, take, if◌then◌else◌, ◌>>=◌,
}
use ifrit.Core.Node.{Services, Pong}

-- `exchange` writes a datagram to an address and reads the answer.
pub record UdpNet : Type 0 where
  pub resolve : Bytes → Option Bytes
  pub dial : Bytes → Bool
  pub marshal_ping : Bytes → Option Bytes
  pub unmarshal_pong : Bytes → Option Pong
  pub exchange : Bytes → Bytes → Option Bytes

-- The buffer of `Ping` and of `Start`.
abbrev pub buffer : Bytes → Bytes
buffer = take 256

unfoldable pub ping : UdpNet → Bytes → Bytes → Option Pong
ping net addr nonce = do
  udp_addr ← net.resolve addr
  if net.dial udp_addr
      then (do
        content ← net.marshal_ping nonce
        answer ← net.exchange udp_addr content
        net.unmarshal_pong (buffer answer))
      else none

-- A turn of the loop of `Start`: a pause, the exit, or a datagram with its sender, or the error of
-- the read.
pub data Turn : Type 0 where
  pauses exits : Turn
  receives : Option (Bytes × Bytes) → Turn

module _ (sv : Services) where
  -- The answer to a datagram; an error is logged.
  unfoldable pub answer : Bytes → Option Bytes
  answer content = do
    (r, s) ← sv.sign content
    sv.marshal_pong (record { nonce = []; signature = some (record { r = some r; s = some s }) })

  abbrev reply_to : Option Bytes → Bytes → List (Bytes × Bytes) → List (Bytes × Bytes)
  reply_to none sender rest = rest
  reply_to (some resp) sender rest = (resp, sender) ∷ rest

  -- The datagrams that the server writes, with their receivers, in turn. A write that fails is among
  -- them: its error is logged.
  unfoldable pub serve : List Turn → List (Bytes × Bytes)
  unfolding answer
  serve [] = []
  serve (pauses ∷ rest) = serve rest
  serve (exits ∷ rest) = []
  serve (receives none ∷ rest) = serve rest
  serve (receives (some (content, sender)) ∷ rest) =
      reply_to (answer (buffer content)) sender (serve rest)

-- The pong of a server.
abbrev pub pong_of : Bytes → Bytes → Pong
pong_of r s = record { nonce = []; signature = some (record { r = some r; s = some s }) }

-- The loop has ended.
abbrev pub exited : List Turn → Bool
exited [] = false
exited (exits ∷ rest) = true
exited (pauses ∷ rest) = exited rest
exited (receives d ∷ rest) = exited rest

-- A datagram of the server with its receiver, and the turns up to the one in which the datagram is
-- written.
pub record Reply (sv : Services) (turns : List Turn) (resp sender : Bytes) : Type 0 where
  pub before : ℕ
  pub content : Bytes
  pub r : Bytes
  pub s : Bytes
  pub received : get_elem? turns before ≡ some (receives (some (content, sender)))
  pub running : exited (take before turns) ≡ false
  pub signed : sv.sign (buffer content) ≡ some (r, s)
  pub marshalled : sv.marshal_pong (pong_of r s) ≡ some resp

module _ (sv : Services) where
  answer-some :
      (content resp : Bytes)
      → answer sv content ≡ some resp
      → (r s : Bytes) × (sv.sign content ≡ some (r, s))
        × (sv.marshal_pong (pong_of r s) ≡ some resp)
  unfolding answer
  answer-some content resp h =
      let ((r, s), signed, h1) = >>=-eq-some (sv.sign content) _ h in (r, s, signed, h1)

  -- A turn that does not end the loop comes first.
  Reply-later :
      (turn : Turn) (turns : List Turn) (resp sender : Bytes)
      → exited (turn ∷ []) ≡ false
      → Reply sv turns resp sender
      → Reply sv (turn ∷ turns) resp sender
  Reply-later pauses turns resp sender h a = record {
    before = suc a.before;
    content = a.content;
    r = a.r;
    s = a.s;
    received = a.received;
    running = a.running;
    signed = a.signed;
    marshalled = a.marshalled;
  }
  Reply-later exits turns resp sender h a = absurd (ground arith)
  Reply-later (receives d) turns resp sender h a = record {
    before = suc a.before;
    content = a.content;
    r = a.r;
    s = a.s;
    received = a.received;
    running = a.running;
    signed = a.signed;
    marshalled = a.marshalled;
  }

  -- The answer to the first datagram, or a later one.
  answered :
      (turns : List Turn) (content from first resp sender : Bytes)
      → answer sv (buffer content) ≡ some first
      → ((j : ℕ) → get_elem? (serve sv turns) j ≡ some (resp, sender) → Reply sv turns resp sender)
      → (i : ℕ) → get_elem? ((first, from) ∷ serve sv turns) i ≡ some (resp, sender)
      → Reply sv (receives (some (content, from)) ∷ turns) resp sender
  answered turns content from first resp sender e later zero h =
      let (r, s, signed, ponged) = answer-some (buffer content) first e in
      let same_resp : first ≡ resp = ground arith in
      let same_sender : from ≡ sender = ground arith in
      record {
        before = 0;
        content = content;
        r = r;
        s = s;
        received = ap (λ b. some (receives (some (content, b)))) same_sender;
        running = refl;
        signed = signed;
        marshalled = ponged ∙ ap some same_resp;
      }
  answered turns content from first resp sender e later (suc i) h =
      Reply-later (receives (some (content, from))) turns resp sender refl (later i h)

  answers_at :
      (turns : List Turn) (before : ℕ) (content r s resp sender : Bytes)
      → get_elem? turns before ≡ some (receives (some (content, sender)))
      → exited (take before turns) ≡ false
      → sv.sign (buffer content) ≡ some (r, s)
      → sv.marshal_pong (pong_of r s) ≡ some resp
      → (i : ℕ) × (get_elem? (serve sv turns) i ≡ some (resp, sender))
  unfolding serve
  answers_at [] n content r s resp sender at running signed ponged = absurd (ground arith)
  answers_at (pauses ∷ rest) zero content r s resp sender at running signed ponged =
      absurd (ground arith)
  answers_at (pauses ∷ rest) (suc n) content r s resp sender at running signed ponged =
      answers_at rest n content r s resp sender at running signed ponged
  answers_at (exits ∷ rest) zero content r s resp sender at running signed ponged =
      absurd (ground arith)
  answers_at (exits ∷ rest) (suc n) content r s resp sender at running signed ponged =
      absurd (ground arith)
  answers_at (receives none ∷ rest) zero content r s resp sender at running signed ponged =
      absurd (ground arith)
  answers_at (receives none ∷ rest) (suc n) content r s resp sender at running signed ponged =
      answers_at rest n content r s resp sender at running signed ponged
  answers_at (receives (some (c, from)) ∷ rest) zero content r s resp sender at running signed
        ponged =
      let same : c ≡ content = ground arith in
      let same_sender : from ≡ sender = ground arith in
      let e : answer sv (buffer c) ≡ some resp =
        ap (λ b. answer sv (buffer b)) same ∙ rw (answer, signed) ponged in
      (0, rw (e, same_sender) refl)
  answers_at (receives (some (c, from)) ∷ rest) (suc n) content r s resp sender at running signed
        ponged =
      let (i, there) = answers_at rest n content r s resp sender at running signed ponged in
      elim (Option-cases (answer sv (buffer c))) [
        | inl e ↦ (i, rw e there)
        | inr (first, e) ↦ (suc i, rw e there)
      ]

  -- Whatever the turns of the loop of `Start` are, each datagram that the server writes answers one
  -- that it received before any exit: it goes to the sender of that one, and is a pong without a
  -- nonce whose signature is over what was received, cut to the buffer.
  pub serve-Reply :
      (turns : List Turn) (i : ℕ) (resp sender : Bytes)
      → get_elem? (serve sv turns) i ≡ some (resp, sender)
      → Reply sv turns resp sender
  unfolding serve
  serve-Reply [] i resp sender h = absurd (ground arith)
  serve-Reply (pauses ∷ rest) i resp sender h =
      Reply-later pauses rest resp sender refl (serve-Reply rest i resp sender h)
  serve-Reply (exits ∷ rest) i resp sender h = absurd (ground arith)
  serve-Reply (receives none ∷ rest) i resp sender h =
      Reply-later (receives none) rest resp sender refl (serve-Reply rest i resp sender h)
  serve-Reply (receives (some (content, from)) ∷ rest) i resp sender h =
      elim (Option-cases (answer sv (buffer content))) [
        | inl e ↦
            let left : get_elem? (serve sv rest) i ≡ some (resp, sender) = ground (arith, h, e) in
            Reply-later (receives (some (content, from))) rest resp sender refl
              (serve-Reply rest i resp sender left)
        | inr (first, e) ↦
            let written : get_elem? ((first, from) ∷ serve sv rest) i ≡ some (resp, sender) =
              ground (arith, h, e) in
            answered rest content from first resp sender e (λ j. serve-Reply rest j resp sender) i
              written
      ]

  -- Every datagram that is received before any exit, and whose pong can be signed and marshalled, is
  -- answered.
  pub serve_answers :
      (turns : List Turn) (resp sender : Bytes)
      → Reply sv turns resp sender
      → (i : ℕ) × (get_elem? (serve sv turns) i ≡ some (resp, sender))
  serve_answers turns resp sender a =
      answers_at turns a.before a.content a.r a.s resp sender a.received a.running a.signed
        a.marshalled
