-- ===== src/Lib.antt =====
-- The session gateway issues one-time tickets for interactive sessions (a shell in a container,
-- or the console of a virtual machine), lets a client claim a ticket over a WebSocket, and
-- connects it to the workload. This library models the program and states what makes its parts
-- correct.
--
-- Parts and files. Prelude and its children hold the shared notation: byte strings
-- (Prelude.Text), integers (Prelude.Int), lists over the native numbers (Prelude.Lists), results
-- and state-passing operations with do blocks (Prelude.Outcome), association lists for Go maps
-- (Prelude.Assoc).
--
-- Session models internal/session/model.go (Session.Model, the records of requests, sessions and
-- leases), the errors and the interface of internal/session/store.go (Session.Errors,
-- Session.Contract), and the pure functions of internal/session/manager.go: validateRequest and
-- ValidVMBinding (Session.Validate, Session.Validity), the encodings it calls (Session.Encoding)
-- and Fingerprint (Session.Fingerprint). Session.Decoding has the decoders of the standard
-- library that the store over Redis calls, and Session.Reads what they read back.
--
-- Memory models internal/store/memory/store.go: Store with its three maps, CreateOrGet
-- (create_or_get), GetByKey (get_by_key), ClaimAndReserve (claim_and_reserve), CloseAndRelease
-- (close_and_release) and cleanup, which every writing call runs first. Its children are about
-- the agreement of the maps (Memory.Invariant, Memory.Coherence), the life of a session
-- (Memory.Evolution, Memory.Lifecycle), the limits (Memory.Capacity), expiry (Memory.Expiry),
-- what stays (Memory.Kept), the names of leases (Memory.Release) and histories of calls
-- (Memory.History). Memory.Laws fills the interface that the manager uses.
--
-- Redis models internal/store/redis/store.go: the server as a record of commands with the laws
-- that Redis documents (Redis.Server), encode and decode (Redis.Codec, Redis.Stored), the three
-- Lua scripts (Redis.Scripts) and CreateOrGet, GetByKey, ClaimAndReserve and CloseAndRelease
-- (Redis.Operations), whose calls may be lost and between which other clients may act.
-- Redis.Rows, Redis.Changes, Redis.Calls, Redis.Granting, Redis.Claims, Redis.Closes,
-- Redis.Creation, Redis.Replays and Redis.Refinement compare it with the memory store, operation
-- by operation (Redis.Agreement says what it means to agree); Redis.Faults, Redis.Outcomes and
-- Redis.Explained are about lost calls and other clients.
--
-- Manager models Manager of internal/session/manager.go over any store of that interface: Issue,
-- Claim, Close and Replay (Manager.Calls), with the checks and the records that they build
-- (Manager.Config). Manager.Issue, Manager.Made, Manager.Roundtrip and Manager.Replays are about
-- what these calls promise, alone and together.
--
-- Connected models internal/transport/websocket/connectedsession: outcomes, policies and the
-- start of a session (Connected), frames and the classification of errors (Connected.Frames), the
-- last message and the close status (Connected.Closing), carryByteStream of module.go
-- (Connected.Consoles), carryExecStream of exec.go (Connected.Terminals), and Run with the
-- release of the lease (Connected.Running), which calls the manager. Runtime has the errors and
-- targets of internal/runtime/stream.go.
--
-- WebSocket models internal/transport/websocket/handler.go: the admission of a client, which
-- claims a ticket with the manager, releases what it claimed if the client cannot be connected,
-- and otherwise hands it to Connected. Grpc models internal/transport/grpc/server.go and
-- instance_identity.go: the requests that come from governance (Grpc.Messages, Grpc.Requests),
-- the two calls, and the peer's identity.
--
-- Pods models internal/runtime/kubernetes/pod_resolver.go, which chooses the pod and container of
-- an exec session, and Kubevirt the checks of internal/runtime/kubevirt/adapter.go around the
-- opening of a console (Kubevirt.Guarded is about what they secure); the cluster's answers are
-- arguments. Exec models OpenExec and the stream of internal/runtime/kubernetes/exec.go, and
-- Resource the validator of internal/runtime/resource/validator.go, which the manager and both
-- runtimes ask.
--
-- Config models internal/config/config.go (Config.Loaded says what a loaded configuration is good
-- for), and Wiring what cmd/session-gateway/main.go passes on of it, with Select of
-- internal/store/select.go. Tests and its children run the definitions and the theorems on
-- concrete inputs.
--
-- Choices. Times, durations and limits are naturals, where zero stands for what is not positive.
-- Strings are lists of bytes. A wrapped error is the sentinel that it wraps, or other where it
-- wraps none. The mutex of the memory store is held over each call, so concurrent callers are a
-- sequence of calls. A range over a map is a loop over the entries at its start, which visits
-- what the loops here visit, since each round deletes at most the entry it is at. A clone is the
-- value itself. SHA-256 and AES-GCM are parameters, with the law that what was sealed under a
-- nonce opens under it; encoding/json is a parameter, without laws but that it reads back the
-- command and the bindings of a session that is stored over Redis. The parsers of net/url, net
-- and time that the configuration uses are parameters without laws. The random source is the list
-- of bytes it has left. Validators are functions. The goroutines of a connected session are
-- interleaved: a run is any list of events, one for each turn of a pump and for each case of the
-- select loop, and an event that is not enabled changes nothing; a flag says which case a select
-- takes when the context is cancelled and another case is ready. A time over Redis has
-- nanoseconds and is kept in whole milliseconds, so a session comes back with its times cut to
-- them. There are no times before the epoch, and the zero time is the epoch's. A Redis server
-- with none of its documented commands failing for a key of another kind is assumed, since the
-- store's prefixes keep the kinds apart. A session whose loop has not been left by the events
-- given is still running, and has no report. Loops are structural recursion; the digits of a
-- number are printed on fuel, one more than the number, which is more than it has digits.
--
-- Not modelled: log lines, tracing, contexts' deadlines, health probes, the connect URL, the wait
-- for the pumps after a loop is left, generated protocol code, metrics, listeners and TLS, the
-- Kubernetes configuration of the process, the pipes of an exec stream, NewFromEnv of the
-- validator, and the parts that the header does not name.
pub mod Prelude
pub mod Session
pub mod Memory
pub mod Manager
pub mod Redis
pub mod Config
pub mod Wiring
pub mod Resource
pub mod Exec
pub mod Runtime
pub mod Pods
pub mod Kubevirt
pub mod Connected
pub mod WebSocket
pub mod Grpc
mod Tests
