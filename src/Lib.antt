-- ===== src/Lib.antt =====
-- Ifrit: the membership protocol of core/ and core/discovery/, Fireflies in Go, modelled and proved.
--
-- A node keeps a view: all peers that it has heard of, and those that it takes to be alive. The live
-- peers, and the node, stand on several rings, on each sorted by the hash of id and ring number. A
-- node gossips with its neighbours on the rings, pings its successors, and accuses one that does not
-- answer. An accused peer answers with a note of a higher epoch, or leaves the live peers when its
-- timer runs out. A note has a mask of the rings on which its peer may be accused.
--
-- The parts and their files, with the code that they model:
--   Bytes, Bits: bytes.Compare and strconv.Itoa as the code uses them; hasBit, setBit, clearBit of
--     core/discovery/view.go, with laws in Bits/Laws and Bits/Count.
--   Discovery/Types, Note, Accusation, Peer: core/discovery/note.go, accusation.go, peer.go.
--     Peer/Signed and Peer/Slots are about the signatures and the map of the accusations.
--   Discovery/Search: core/discovery/search.go (insert, search, findSuccAndPrev, succ, prev).
--     Search/Rank has the rank of a hash in a sorted list, Search/Loops and Search/Correct the
--     loops against it.
--   Discovery/Ring: the type `ring` of core/discovery/ring.go; Ring/Invariant and Ring/Removal are
--     about add and remove, Ring/Reach about their sequences, Ring/Predecessor about isPrev.
--   Discovery/Rings: the type `rings` of core/discovery/ring.go. Ring/Notes and Rings/Notes are about
--     what add writes.
--   Discovery/View: core/discovery/view.go; View/Mask and View/Deactivate are about the rings that a
--     mask disables, View/Overlay about neighbours, View/Rebuttal about ShouldRebuttal, View/Timers about StartTimer, View/RingTurn
--     about the turn of the rings.
--   Core/Node, Notes, Accusations, Merge, Spread: core/handlers.go and core/mutators.go, with
--     Rebuttal and Gossip of core/protocol.go. Notes/Outcome, Notes/Stored and Notes/Revived are
--     about evalNote, Accusations/Outcome about evalAccusation, Merge/Stale about mergeViews.
--   Core/Detector: core/failure_detector.go, and Monitor of core/protocol.go. Detector/Probe is about
--     the ping count, Detector/Dead about a peer that does not answer.
--   Core/Run: what happens to a node, as events with a step: a call of Spread, the turns of the loops
--     of core/node.go, the start, the ticks of the view, and the setters of core/mutators.go.
--     Core/Safety has what each handler and round keeps of a view, from Safety/Invariant and
--     Safety/Live up to Safety/Handler, Safety/Rounds and Safety/Monitor; Run/Total joins them.
--     Run/Taught, with Merge/Told and Merge/Learned, follows a certificate from one node to another.
--   Core/Visualizer: the states that core/viz.go sends.
--   Core/Lifecycle: core/node.go; Lifecycle/Contacts and Lifecycle/Startup are about NewNode,
--     Lifecycle/Stop has Stop. Core/Messages has Messenger of core/handlers.go, Notes/Certificates is
--     about evalCertificate.
--   Ring/Members, Ring/Same and Ring/Neighbours under Discovery are about the peers that a ring knows,
--     Rings/Agree about all rings of a view, View/New and View/Live about the live peers of a view
--     through NewView, AddLive, RemoveLive and checkTimeouts.
--   LittleEndian: encoding/binary as cauth/cauth.go and comm/crypto_unit.go use it.
--   Cauth: cauth/cauth.go. Cauth/Boot has the boot nodes, Cauth/Ids the ids, Cauth/Signing the handler
--     of requests with Signing/Serves about its answer, Cauth/Groups the saved groups, with
--     Groups/Written and Groups/Stored about LoadCa on them.
--   Comm/CryptoUnit: comm/crypto_unit.go, its files in CryptoUnit/Files; CryptoUnit/Issued is about
--     NewCu. Comm/Connections: the connections of comm/client.go. Comm/Udp: comm/udp.go.
--   NetUtil, Worm, Client: netutil/netutil.go, the package worm/, and client.go.
--   Tests: the model on small inputs.
--
-- How the model stands to the code:
--   Names are those of the code in another spelling: `add_live` is AddLive. A method returns the new
--   state. `none` as the result of an operation is a panic (an index out of range, a division by
--   zero, a nil dereference), or fuel that ran out; errors are values of data types, or `none`
--   where the comment of the definition says so.
--   A pointer to a peer is an immutable PeerRef; the mutable fields stand in a heap under its id.
--   A Go map is an association list; a loop over a map runs in the order of the list, where Go fixes
--   none. The locks make each method one step. The logger is left out.
--   Numbers are natural numbers, with the wrap of uint32 and uint64 written out. The loops of the
--   searches run on fuel length + 1, which is enough, since each turn at least halves the range;
--   their bound `end` is the code's maxIdx + 1.
--   The loops of netutil/ run on as many steps as the code allows attempts; genId runs on the list of
--   what the source of random bytes gives, since it has no bound.
--   SHA-256, protobuf, the signatures, x509, files, sockets, HTTP and the clock are arguments: `sha256`,
--   and the fields of Services, CryptoServices, Disk, Host and Platform. Some theorems suppose that
--   no two byte strings have the same hash.
--   A directory is an association list of names and contents, so that a second write to a name replaces
--   the first, and Glob is a function from its names to those that match, in any order. Listening is a
--   function from the port that is asked for to the port of the listener, since the system chooses one
--   for port 0.
--
-- Not modelled: the gRPC server and the streams (comm/comm.go, server.go, and
-- StreamMessenger of client.go), the server of core/viz.go, the HTTP servers of cauth/ and the
-- tickers and reports of worm/, the configuration file of client.go, the launcher, the commands and
-- the generated protobuf/gossip.pb.go: they are input and output, or stand apart from the protocol.
-- Streams of the application, and its response handler, pass through core/ without a change to the
-- view.
pub mod Prelude
pub mod Bytes
pub mod Discovery
pub mod Bits
pub mod Core
pub mod LittleEndian
pub mod Cauth
pub mod Comm
pub mod NetUtil
pub mod Worm
pub mod Client
pub mod Tests
