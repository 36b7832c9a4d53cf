-- ===== src/Core/Merge.antt =====
-- core/handlers.go: the merging of notes, accusations, certificates and views. `none` is a panic.
pub mod Stale
pub mod Learned
pub mod Told
use ifrit.Prelude.{
  ℕ, Bool, true, false, not, ◌&&◌, Option, none, some, List, [], ◌∷◌, ◌++◌, Bytes, bytes_eq, ◌=?◌,
  if◌then◌else◌, ◌>>=◌,
}
use ifrit.Prelude.GoMap
use ifrit.Discovery.Types.{PeerRef}
use ifrit.Discovery.Note.{Note, PbNote}
use ifrit.Discovery.Note
use ifrit.Discovery.Accusation.{PbAccusation}
use ifrit.Discovery.Peer.{PeerState}
use ifrit.Discovery.Peer
use ifrit.Discovery.View.{View}
use ifrit.Discovery.View
use ifrit.Core.Node.{Services, Node, PbState, StateResponse}
use ifrit.Core.Notes.{eval_note, eval_certificate}
use ifrit.Core.Accusations.{eval_accusation}

-- The errors of the single messages are logged, no more.
module _ (sv : Services) where
  unfoldable pub merge_notes : View → List PbNote → Option View
  merge_notes v [] = some v
  merge_notes v (new ∷ rest) = do
    v' ← (if v.self.id =? new.id then some v else (do (w, e) ← eval_note sv v (some new); some w))
    merge_notes v' rest

  unfoldable pub merge_certificate : Node → Bytes → Node
  merge_certificate n raw = elim (sv.parse_certificate raw) [
    | none ↦ n
    | some cert ↦
        if n.view.self.id =? cert.subject_key_id
        then n
        else record n { view = (eval_certificate sv n.ca_certificate n.view (some cert)).0 }
  ]

  unfoldable pub merge_certificates : Node → List Bytes → Node
  unfolding merge_certificate
  merge_certificates n [] = n
  merge_certificates n (raw ∷ rest) = merge_certificates (merge_certificate n raw) rest

module _ (sv : Services) (now : ℕ) where
  -- The accuser: this node, or a peer of the view.
  abbrev pub who : View → Bytes → Option PeerRef
  who v id = if v.self.id =? id then some v.self else View.peer v id

  abbrev pub has_note : View → PeerRef → Bool
  has_note v p = elim (v.heap p.id).note [ none ↦ false | some n ↦ true ]

  unfoldable pub merge_accusation : Node → PbAccusation → Option Node
  merge_accusation n acc = elim (who n.view acc.accuser) [
    | none ↦ some n
    | some accuser ↦ elim (who n.view acc.accused) [
      | none ↦ some n
      | some accused ↦
          if not (n.view.self.id =? acc.accused) && not (has_note n.view accused)
          then some n
          else (do (n', e) ← eval_accusation sv now n acc accuser accused; some n')
    ]
  ]

  unfoldable pub merge_accusations : Node → List PbAccusation → Option Node
  unfolding merge_accusation
  merge_accusations n [] = some n
  merge_accusations n (acc ∷ rest) = do n' ← merge_accusation n acc; merge_accusations n' rest

-- The note of a peer as a list of messages, for `append`.
abbrev pub note_msg : Option Note → Option (List PbNote)
note_msg none = some []
note_msg (some note) = do m ← Note.to_pb_msg note; some (m ∷ [])

abbrev pub newer_note_msg : Option Note → ℕ → Option (List PbNote)
newer_note_msg none epoch = some []
newer_note_msg (some note) epoch =
    if Note.is_more_recent note epoch then note_msg (some note) else some []

-- What one peer of the view adds to the reply.
unfoldable pub merge_peer :
    List (Bytes × ℕ) → PeerRef → PeerState → StateResponse → Option StateResponse
merge_peer given p st reply = do
  (certs, notes) ← elim (GoMap.lookup p.id given) [
    | none ↦ (do notes ← note_msg st.note; some (p.cert.raw ∷ [], notes))
    | some epoch ↦ (do
      -- The test of the code reads whether the own note is older than the given epoch.
      notes ← newer_note_msg st.note epoch
      some ([], notes))
  ]
  accs ← Peer.accusation_msgs (Peer.all_accusations st)
  some (record reply {
    certificates = reply.certificates ++ certs;
    notes = reply.notes ++ notes;
    accusations = reply.accusations ++ accs;
  })

unfoldable pub merge_peers :
    List PeerRef → View → List (Bytes × ℕ) → StateResponse → Option StateResponse
merge_peers [] v given reply = some reply
merge_peers (p ∷ rest) v given reply = do
  reply' ← merge_peer given p (v.heap p.id) reply
  merge_peers rest v given reply'

abbrev pub own_newer : Note → Option ℕ → Bool
own_newer note none = true
own_newer note (some epoch) = Note.is_more_recent note epoch

unfoldable pub merge_views : View → List (Bytes × ℕ) → StateResponse → Option StateResponse
unfolding merge_peers merge_peer
merge_views v given reply = do
  reply' ← merge_peers (View.full v) v given reply
  own ← (v.heap v.self.id).note
  if own_newer own (GoMap.lookup v.self.id given)
      then (do m ← Note.to_pb_msg own; some (record reply' { notes = reply'.notes ++ (m ∷ []) }))
      else some reply'

-- `View.State` and `collectGossipContent`: the keys of the map are made valid UTF-8.
module _ (sv : Services) where
  abbrev epoch_of : Option Note → ℕ
  epoch_of none = 0
  epoch_of (some n) = n.epoch

  pub hosts : List PeerRef → View → List (Bytes × ℕ) → List (Bytes × ℕ)
  hosts [] v m = m
  hosts (p ∷ rest) v m =
      hosts rest v (GoMap.insert (sv.to_valid_utf8 p.id) (epoch_of (v.heap p.id).note) m)

  unfoldable pub state : View → Option PbState
  unfolding hosts
  state v = do
    own ← (v.heap v.self.id).note
    m ← Note.to_pb_msg own
    some (record {
      existing_hosts = some (hosts (View.full v) v []);
      own_note = some m;
      external_gossip = none;
    })

  unfoldable pub collect_gossip_content : Node → Option PbState
  unfolding state
  collect_gossip_content n = do
    msg ← state n.view
    some (record msg { external_gossip = n.external_gossip })
