-- ===== src/Discovery/Peer.antt =====
-- core/discovery/peer.go. A `*Peer` is a `PeerRef`; what its methods read and write is the
-- `PeerState` that the heap holds under its id. A method that writes returns the new state.
pub mod Signed
pub mod Slots
use ifrit.Prelude.{
  ℕ, zero, suc, ◌+◌, Bool, true, false, ◌||◌, Option, none, some, List, [], ◌∷◌, map, Bytes, length,
  get_elem?, ◌==◌, ltb, ◌=?◌, ◌⊎◌, inl, inr, nat_eq, bytes_eq, if◌then◌else◌,
}
use ifrit.Prelude.GoMap
use ifrit.Discovery.Types.{Certificate, PeerRef, u32}
use ifrit.Discovery.Note.{Note, PbNote, Signature}
use ifrit.Discovery.Note
use ifrit.Discovery.Accusation.{Accusation, PbAccusation}
use ifrit.Discovery.Accusation

pub data PeerError : Type 0 where
  no_rings no_cert peer_addr peer_id pub_key : PeerError
  acc_already_exists invalid_ring old_epoch accuser_sign accused_id accuser_id : PeerError
  marshal_failed sign_failed : PeerError

-- The map has the keys 1 to `numRings`, with nil where no accusation stands.
pub record PeerState : Type 0 where
  pub note : Option Note
  pub accusations : List (ℕ × Option Accusation)
  pub n_ping : ℕ

abbrev pub Heap : Type 0
Heap = Bytes → PeerState

-- Writes through the pointer with this id.
abbrev pub store : Bytes → PeerState → Heap → Heap
store id st heap j = if id =? j then st else heap j

-- for i = first; i < first + n; i++
unfoldable pub no_accusations : ℕ → ℕ → List (ℕ × Option Accusation)
no_accusations zero i = []
no_accusations (suc n) i = (i, none) ∷ no_accusations n (i + 1)

abbrev pub PeerResult : Type 0
PeerResult = PeerRef × PeerState ⊎ PeerError

get_or_empty : List Bytes → ℕ → Bytes
get_or_empty l i = elim (get_elem? l i) [ none ↦ [] | some a ↦ a ]

unfoldable pub new_peer : Option Certificate → ℕ → PeerResult
unfolding no_accusations get_or_empty
new_peer none num_rings = inr (if num_rings == 0 then no_rings else no_cert)
new_peer (some cert) num_rings =
    if num_rings == 0
    then inr no_rings
    else (if ltb (length cert.locality) 2
        then inr peer_addr
        else (if length cert.subject_key_id == 0 then inr peer_id else elim cert.public_key [
          | none ↦ inr pub_key
          | some key ↦ inl (
            record {
              id = cert.subject_key_id;
              addr = get_or_empty cert.locality 0;
              ping_addr = get_or_empty cert.locality 1;
              http_addr = if length cert.locality == 3 then get_or_empty cert.locality 2 else [];
              cert = cert;
              public_key = key;
            },
            record { note = none; accusations = no_accusations num_rings 1; n_ping = 0 },
          )
        ]))

-- `proto.Marshal` of an accusation and the signer are not modelled: they are arguments.
module _ (marshal : PbAccusation → Option Bytes) (sign : Bytes → Option (Bytes × Bytes)) where
  write_accusation : PeerState → Note → PeerRef → ℕ → PeerState × Option PeerError
  write_accusation st accused self ring_num =
      let msg : PbAccusation = record {
        epoch = accused.epoch;
        accuser = self.id;
        accused = accused.id;
        ring_num = ring_num;
        signature = none;
      } in
      elim (marshal msg) [
        | none ↦ (st, some marshal_failed)
        | some b ↦ elim (sign b) [
          | none ↦ (st, some sign_failed)
          | some (r, s) ↦ (
            record st {
              accusations =
                  GoMap.insert ring_num
                    (some (record {
                      ring_num = ring_num;
                      epoch = accused.epoch;
                      accuser = self.id;
                      accused = accused.id;
                      signature = some (record { r = some r; s = some s });
                    }))
                    st.accusations;
            },
            none,
          )
        ]
      ]

  unfoldable pub create_accusation : PeerState → Note → PeerRef → ℕ → PeerState × Option PeerError
  unfolding write_accusation
  create_accusation st accused self ring_num = elim (GoMap.lookup ring_num st.accusations) [
    | none ↦ (st, some invalid_ring)
    | some none ↦ write_accusation st accused self ring_num
    | some (some a) ↦
        if Accusation.equal a accused.id self.id ring_num accused.epoch
        then (st, some acc_already_exists)
        else write_accusation st accused self ring_num
  ]

abbrev note_epoch_differs : Option Note → ℕ → Bool
note_epoch_differs none epoch = false
note_epoch_differs (some n) epoch = if n.epoch == epoch then false else true

abbrev is_nil {ℓ} : {A : Type ℓ} → Option A → Bool
is_nil none = true
is_nil (some a) = false

unfoldable pub add_accusation :
    PeerState → Bytes → Bytes → ℕ → ℕ → Option Bytes → Option Bytes → PeerState × Option PeerError
add_accusation st accused accuser epoch ring_num r s =
    if note_epoch_differs st.note epoch
    then (st, some old_epoch)
    else (if is_nil (GoMap.lookup ring_num st.accusations)
        then (st, some invalid_ring)
        else (if is_nil r || is_nil s
            then (st, some accuser_sign)
            else (if accused =? []
                then (st, some accused_id)
                else (if accuser =? [] then (st, some accuser_id) else (
                  record st {
                    accusations =
                        GoMap.insert ring_num
                          (some (record {
                            ring_num = ring_num;
                            epoch = epoch;
                            accuser = accuser;
                            accused = accused;
                            signature = some (record { r = r; s = s });
                          }))
                          st.accusations;
                  },
                  none,
                )))))

unfoldable pub remove_ring_accusation : PeerState → ℕ → PeerState
remove_ring_accusation st ring_num =
    if is_nil (GoMap.lookup ring_num st.accusations)
    then st
    else record st { accusations = GoMap.insert ring_num none st.accusations }

unfoldable pub remove_accusation : PeerState → Accusation → PeerState
unfolding remove_ring_accusation
remove_accusation st a = remove_ring_accusation st a.ring_num

abbrev clear : List (ℕ × Option Accusation) → List (ℕ × Option Accusation)
clear = map (λ e. (e.0, none))

unfoldable pub clear_accusations : PeerState → PeerState
clear_accusations st = record st { accusations = clear st.accusations }

unfoldable pub ring_accusation : PeerState → ℕ → Option Accusation
ring_accusation st ring_num = elim (GoMap.lookup ring_num st.accusations) [
  | none ↦ none
  | some a ↦ a
]

-- The entries that are not nil, in the order of the list; Go's order is not specified.
unfoldable pub present : List (ℕ × Option Accusation) → List Accusation
present [] = []
present ((k, none) ∷ m) = present m
present ((k, some a) ∷ m) = a ∷ present m

unfoldable pub all_accusations : PeerState → List Accusation
unfolding present
all_accusations st = present st.accusations

abbrev first : List Accusation → Option Accusation
first [] = none
first (a ∷ rest) = some a

unfoldable pub any_accusation : PeerState → Option Accusation
unfolding present
any_accusation st = first (present st.accusations)

unfoldable pub any_present : List (ℕ × Option Accusation) → Bool
any_present [] = false
any_present ((k, none) ∷ m) = any_present m
any_present ((k, some a) ∷ m) = true

unfoldable pub is_accused : PeerState → Bool
unfolding any_present
is_accused st = any_present st.accusations

unfoldable pub add_note : PeerRef → PeerState → ℕ → ℕ → Option Bytes → Option Bytes → PeerState
add_note p st mask epoch r s =
    let new : Note = record {
      epoch = epoch;
      mask = mask;
      id = p.id;
      signature = some (record { r = r; s = s });
    } in
    elim st.note [
      | none ↦ record st { note = some new }
      | some n ↦ if Note.is_more_recent n epoch then record st { note = some new } else st
    ]

unfoldable pub increment_ping : PeerState → PeerState
increment_ping st = record st { n_ping = u32 (st.n_ping + 1) }

unfoldable pub reset_ping : PeerState → PeerState
reset_ping st = record st { n_ping = 0 }

-- `Info`: the certificate, the note and the accusations as messages.
unfoldable pub accusation_msgs : List Accusation → Option (List PbAccusation)
accusation_msgs [] = some []
accusation_msgs (a ∷ rest) = elim (Accusation.to_pb_msg a) [
  | none ↦ none
  | some m ↦ elim (accusation_msgs rest) [ none ↦ none | some ms ↦ some (m ∷ ms) ]
]
