-- ===== src/Core/Messages.antt =====
-- Messenger in core/handlers.go, and what its answer becomes at the sender in core/node.go.
use ifrit.Prelude.{Option, none, some, [], ◌∷◌, Bytes, length, ◌==◌, if◌then◌else◌, ◌≡◌, refl}
use ifrit.Discovery.Types.{Certificate}
use ifrit.Core.Lifecycle.{send_msg}

-- The reply of the application's handler, and the text of its error.
abbrev pub Handler : Type 0
Handler = Bytes → Bytes × Option Bytes

-- `cert` is the certificate of the TLS connection. The content and the error of the answer.
unfoldable pub messenger : Option Certificate → Option Handler → Bytes → Option (Bytes × Bytes)
messenger none handler content = none
messenger (some cert) none content = some ([], [])
messenger (some cert) (some handler) content =
    some ((handler content).0, elim (handler content).1 [ none ↦ [] | some text ↦ text ])

-- A text that is not empty.
abbrev pub text_of : Option Bytes → Option Bytes
text_of none = none
text_of (some text) = if length text == 0 then none else some text

-- A message to a peer with a handler comes back as one message, with the handler's reply and the
-- text of its error; an error with an empty text is lost.
pub send_msg-messenger :
    (cert : Certificate) (handler : Handler) (content : Bytes)
    → send_msg (messenger (some cert) (some handler) content)
      ≡ some (record { content = (handler content).0; error = text_of (handler content).1 }) ∷ []
unfolding send_msg messenger
send_msg-messenger cert handler content = go (handler content)
  where
    go :
        (r : Bytes × Option Bytes)
        → send_msg (some (r.0, elim r.1 [ none ↦ [] | some text ↦ text ]))
          ≡ some (record { content = r.0; error = text_of r.1 }) ∷ []
    go (reply, none) = refl
    go (reply, some text) = refl
