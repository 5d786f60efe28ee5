-- ===== src/Lib.antt =====
-- ProxyScope: an intercepting HTTP proxy with a raw TCP/UDP relay and a system-wide packet capture.
--
-- Messages on their way through the proxy, the relay or the capture stop at a pause point. A hold
-- queue keeps them until the user resolves them, a timer runs out, the pause point is turned off, or
-- the connection or the service ends. The rules engine rewrites HTTP messages without a user.
--
-- Prelude: numbers, tests, lists, texts and 64-bit integers. A text is a list of bytes, with ASCII
--   case folding and trimming.
-- Hold: what the three hold queues share. Hold/Machine has the mutex-guarded table with nextID, the
--   channel of size 1 of each item, the sends that are under way and the phase of each waiting
--   goroutine. A step is one critical section, send, receive or choice of a select, so that a list of
--   events is an interleaving of the goroutines. Hold/Client ties a queue's own calls to these steps.
--   A pointer comparison of `take` is a comparison of ids, which is the same as long as nextID does
--   not wrap; the theorems bound the history by 2^63 calls for that reason.
-- Http: headers, messages and their equality (internal/model/intercept.go).
-- Intercept: internal/intercept/intercept.go. `enqueue`, `set_settings`, `resolve`, `listing`, `get`
--   are the methods of Manager; `expire`, `disconnect` and the calls `taken` and `received` are the
--   branches of `wait`; `finish_request` and `finish_response` end HoldRequest and HoldResponse.
-- Chunk: internal/model/relay.go.
-- Relay/Hold: internal/relay/hold.go. Capture/Hold: internal/sysCapture/hold.go.
-- Relay/Tcp: `pump` of internal/relay/tcp.go for both directions, and storeChunk of relay.go. A step is
--   one round of the loop of one pump; a list of rounds is an interleaving of the two goroutines, in
--   which the part of a round after its hold is not interrupted.
-- Capture/Packet: internal/sysCapture/packet.go. A packet is a list of bytes; an access out of range,
--   where Go panics, is a `fault`.
-- Capture/Flow: the flow key of packet.go; net.IP.String is a parameter. A port has at most five digits.
-- Capture/Session: the session record of internal/sysCapture/session.go and what is stored of it. A
--   slice out of range is `none`.
-- Capture/Service: internal/sysCapture/sysCapture.go and the sweep of session.go. A pointer to a
--   session is a number and the heap maps it to the session, since a packet that is held keeps its
--   pointer while the sweep takes the session out of the table. An `Arrival` is a packet with the
--   resolution it waits for and what the other goroutines do meanwhile; a list of these is a run of
--   the receive loop. A panic is `none`.
-- Outbound: internal/outbound/outbound.go; Outbound itself has the type Capture, Outbound/Request the
--   rest. A reader is the bytes it yields and the error it ends with.
-- Proxy: `forward` of internal/proxy/proxy.go, and the exchange of internal/model/model.go. A stage
--   returns early or goes on, as the function does; `to_server` are the stages up to the response,
--   `to_client` those after it, and `close` is what `forward` defers. The interceptor and the rules are
--   records of operations, as the interfaces of proxy.go are; the client and the server are inputs.
-- Rules: internal/model/rules.go; Rules/Compile and Rules/Build are internal/rules/compile.go,
--   Rules/Match is match.go and action.go, Rules/Engine is engine.go. A nil dereference is `none`.
--   Rules/Wants tells from a rule as it is written whether it uses the body. Regular expressions,
--   url.Parse, YAML and the answers of the file system are parameters; the steps of
--   `writeFileAtomic` are steps on the rules file and the temporary files beside it. `groups` runs on
--   fuel, one unit more than the text has bytes, as each round takes a byte at least; `none` is fuel
--   that ran out.
--
-- The texts of notes and errors are constructors, times are nanoseconds, `Clone` is the identity on
-- values, and a map is a list of entries whose order no theorem depends on.
--
-- Not modelled: the network and TLS, the SQL store, the certificate authority, the web UI, WinDivert
-- and the command line, which are input and output; the TLS tunnels of the proxy, the repeater, and the
-- UDP sessions of the relay.
mod Prelude
pub mod Hold
pub mod Http
pub mod Intercept
pub mod Chunk
pub mod Relay
pub mod Capture
pub mod Proxy
pub mod Rules
pub mod Outbound
