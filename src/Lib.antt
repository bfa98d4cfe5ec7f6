-- ===== src/Lib.antt =====
-- A model of the whisper server, with the theorems that make its core correct.
--
-- A whisperer types and listeners read along. The program has these parts, from the bottom up:
--   * the object mapper, which keeps strings, sets, lists, maps and encoded objects in Redis under
--     prefixed keys;
--   * the protocol: control chunks, content chunks and packets on the wire, and the live text that
--     content chunks edit;
--   * pubsub: a manager of sessions over the Ably service, which hands out tokens, tracks who is
--     present and passes packets and presence on to the session lifecycle;
--   * storage: profiles, conversations, activities, the state of suspended sessions with the
--     packets that came in meanwhile, and transcripts;
--   * the lifecycle of sessions: who takes part and who waits, what is said, how a session ends and
--     how it moves from one server to the next;
--   * speech: the calls of the Resemble service, and a manager that keeps what was generated in an
--     expiring cache and wakes those that wait for it;
--   * the HTTP handlers, which authenticate a request and call the storage and the lifecycle;
--   * the configuration of a server, its database and its encrypted blobs, and the commands that list
--     and delete keys.
--
-- Files, each with the code that it models:
--   Platform/Redis.antt           the Redis client, a parameter: commands and their replies
--   Platform/Redis/Spec.antt      the documented behaviour of the commands, as functions, and the
--                                 statement `Documented` that a healthy client shows it
--   Platform/Redis/Simulation.antt  code over a documented client does what it does over the functions
--   Platform/Redis/Lifetimes.antt  the commands on the fields of a hash whose fields have lifetimes,
--                                 and the statement `KeepsLifetimes` that a client shows them
--   Platform/Orm/*.antt           platform/orm.go: Keys (DbKey, SetExpiration, DeleteStorage,
--                                 FetchString, StoreString), Sets, Lists, Maps, Objects
--                                 (FetchValueAtKey, StoreValueAtKey, FetchObject, StoreObject), Scan
--                                 (MapKeys and its kin), Time (seconds as a duration)
--   Platform/Orm/SortedSets.antt  platform/orm.go: the sorted sets, whose order Platform/Redis/Sorted.antt
--                                 gives
--   Platform/Config.antt          platform/config.go
--   Platform/Db.antt              platform/db.go
--   Platform/Aws.antt             platform/aws.go
--   Platform/Cache.antt           platform/expiring_cache.go
--   Protocol/Decimal.antt         decimal integers as fmt and strconv print and read them
--   Protocol/Chunk.antt           protocol/chunk.go, protocol/control.go
--   Protocol/Content.antt         protocol/content.go
--   Pubsub/Ably.antt              the Ably client, a parameter
--   Pubsub/Interface.antt         pubsub/interface.go
--   Pubsub/Session.antt           the type session of pubsub/ably.go with its methods
--   Pubsub/Manager.antt           the type ablyManager of pubsub/ably.go
--   Storage/Types.antt            the stored types of storage/*.go and their keys
--   Storage/Profile.antt, Storage/Users.antt  storage/profile.go
--   Storage/Conversation.antt     storage/conversation.go
--   Storage/Client.antt           storage/client.go
--   Storage/Sessions.antt, Storage/Transcripts.antt  storage/session.go
--   Lifecycle/Session.antt        lifecycle/session.go: participants, requests, monitorParticipants
--   Lifecycle/Transcribe.antt     lifecycle/session.go: transcribeContent and what it calls
--   Lifecycle/Ending.antt         lifecycle/session.go: Transcribe, saveTranscript, End
--   Lifecycle/Sessions.antt       lifecycle/session.go: the map of sessions, GetSession, Shutdown,
--                                 EndAllSessions, ShutdownAllSessions, StartAllSuspendedSessions,
--                                 and Shutdown of lifecycle/server.go
--   Speech/Resemble.antt          speech/resemble_core.go
--   Speech/Manager.antt           speech/resemble_manager.go
--   Handlers/Http.antt            requests, answers and the libraries of the handlers, as parameters
--   Handlers/Auth.antt            handlers/auth.go
--   Handlers/Launch.antt          handlers/launch.go
--   Handlers/Profile.antt         handlers/profile.go
--   Handlers/Session.antt         handlers/session.go
--   Handlers/Conversation.antt    handlers/conversation.go
--   Handlers/Routes.antt          api/console/router.go
--   Command/Db.antt               cmd/db.go
--   Prelude.antt                  the shared names: texts, results and state passing, maps, integers
--   The modules below these prove what their names say. Every Examples.antt holds the theorems of its
--   part at concrete inputs, which the modules Samples.antt make.
--
-- How state and code correspond. A Go string is the list of its bytes; `int` is an integer with the
-- range of 64 bits where it is parsed or printed. A call that may fail is a function from a state
-- to a result and a new state (`Exec`), and the state changes whether or not the call fails. A map
-- is an association list, and `range` over it goes in the order of the entries, so a theorem for
-- every list holds for every order. A channel is the list of what was sent, or an argument of the
-- step that receives. The two goroutines of a session are given by one step each,
-- `monitor_participants` and `transcribe_content`. The clock and random ids are arguments. Log
-- lines are left out, and where the source only logs an error the model drops it.
--
-- A handler takes the state of the server with the answers so far to the next such state. The
-- goroutines that generate speech and the callers that wait for it are lists in the state of the
-- manager, and each goes on in a step of its own, in any order.
--
-- Parameters. The Redis client, the Ably client and the gob codecs are not in the repository, nor
-- are gin, golang-jwt, google/uuid, gomail, the network, JSON, base64, regular expressions, S3, age
-- and the loader of environment files. A codec of stored values promises that what it encodes it
-- decodes; the decoder of a voice has no promise, and a theorem that needs it says so. Theorems on
-- stored data assume `Documented`: while the connection is up and nobody else writes between the
-- commands, each command does what its documentation says. A session takes its speech manager as a
-- parameter.
--
-- Fuel. `emit` prints a number with one more step than the number, and a number has no more digits
-- than that. The loop of StartAllSuspendedSessions has a turn for each session that waits and one
-- more, which finds the queue empty; without a turn left it has no result. All other loops are
-- structural.
--
-- Not modelled: SetExpirationAt and the testers of the object mapper, the dumps of platform/io.go,
-- the hashes and random numbers of platform/utils.go, the middleware, the start of the process with
-- its signals and the HTTP engine, the flags of the commands, and interleavings of the goroutines
-- within one step. In ShutdownAllSessions the sessions finish in the order of the map's entries,
-- and each saves its live packets before its state, one of the orders in which the goroutines may
-- go. `Documented` keeps no lifetimes of fields; the theorem on the expiring cache assumes
-- `KeepsLifetimes` in its place. A content chunk with an offset so large that the padding does not
-- fit into memory ends the Go program; the model pads.
pub mod Prelude
pub mod Platform
pub mod Protocol
pub mod Pubsub
pub mod Storage
pub mod Lifecycle
pub mod Handlers
pub mod Speech
pub mod Command
