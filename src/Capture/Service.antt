-- ===== src/Capture/Service.antt =====
-- internal/sysCapture/sysCapture.go: the service of the system capture, from a captured packet to the bytes
-- that are sent on. A pointer to a session is a number, `heap` is what it points to. `opened` and `closed` are the
-- calls of the sink. The hold queue is that of Capture.Hold: `processPacket` is given the resolution that it waited
-- for, `none` when it was not held, and the steps of the other goroutines until then. A run that panics is `none`.
pub mod Fits
pub mod Counts
pub mod Delivery
pub mod Sessions
pub mod Lifecycle
mod Tests
use proxy_scope.Hold.Machine.{update}
use proxy_scope.Prelude.Word.{lt64, sub64}
use proxy_scope.Prelude.Text.{Bytes, equal}
use proxy_scope.Chunk.{
  relay_tcp, no_note, relay_down, relay_up, Outcome, Resolution, Protocol, Direction, Chunk,
}
use proxy_scope.Prelude.{
  not, length, true, suc, false, some, Bool, none, [], if◌then◌else◌, ◌++◌, Option, ◌∷◌, map, ℕ,
  List,
}
use proxy_scope.Capture.Flow.{flow_key, join_host_port, port_string}
use proxy_scope.Capture.Packet.{Parsed, ok, fault, payload, parse_packet, replace_payload}
use proxy_scope.Capture.Session.{CapSession, new_session, store_chunk, track_bytes}
use proxy_scope.Http.Message.{verdict_drop, verdict_forward}
use proxy_scope.Capture.Hold.{finish}

-- model.RelaySession, as it is given to OpenSession.
pub record Opened : Type 0 where
  pub target : Bytes
  pub protocol : Protocol
  pub client_addr : Bytes
  pub upstream_addr : Bytes
  pub opened_at : ℕ

-- The arguments of CloseSession.
pub record Closed : Type 0 where
  pub id : ℕ
  pub closed_at : ℕ
  pub bytes_up : ℕ
  pub bytes_down : ℕ

pub record Service : Type 0 where
  pub filter : Bytes
  pub max_capture : ℕ
  pub idle_timeout : ℕ
  pub sessions : List (Bytes × ℕ)
  pub heap : ℕ → CapSession
  pub count : ℕ
  pub opened : List Opened
  pub closed : List (ℕ × Closed)

-- The heap before the first session is never read: `count` is 0.
unfoldable pub new_service : Bytes → ℕ → ℕ → Service
new_service filter max_capture idle_timeout = record {
  filter = filter;
  max_capture = max_capture;
  idle_timeout = idle_timeout;
  sessions = [];
  heap = λ ptr. new_session 0 [] [] [] relay_tcp 0;
  count = 0;
  opened = [];
  closed = [];
}

-- s.sessions[key].
unfoldable pub find : Bytes → List (Bytes × ℕ) → Option ℕ
unfolding equal
find key [] = none
find key ((k, ptr) ∷ sessions) = if equal k key then some ptr else find key sessions

-- A new session; `id` is what the sink made of it, 0 if it failed.
unfoldable pub open_session : Bytes → Bytes → Bytes → Protocol → ℕ → ℕ → Service → Service
open_session key client upstream protocol id now s =
    let rec : Opened = record {
      target = s.filter;
      protocol = protocol;
      client_addr = client;
      upstream_addr = upstream;
      opened_at = now;
    } in
    record s {
      sessions = s.sessions ++ (key, s.count) ∷ [];
      heap = update s.heap s.count (new_session id key client upstream protocol now);
      count = suc s.count;
      opened = s.opened ++ rec ∷ [];
    }

-- The endpoints of a packet as text, and this machine's and the remote one of them.
unfoldable pub src_addr : (Bytes → Bytes) → Parsed → Bytes
unfolding join_host_port port_string
src_addr ip_string p = join_host_port (ip_string p.src_ip) (port_string p.src_port)

unfoldable pub dst_addr : (Bytes → Bytes) → Parsed → Bytes
unfolding join_host_port port_string
dst_addr ip_string p = join_host_port (ip_string p.dst_ip) (port_string p.dst_port)

abbrev pub local_addr : (Bytes → Bytes) → Parsed → Bool → Bytes
local_addr ip_string p outbound = if outbound then src_addr ip_string p else dst_addr ip_string p

abbrev pub remote_addr : (Bytes → Bytes) → Parsed → Bool → Bytes
remote_addr ip_string p outbound = if outbound then dst_addr ip_string p else src_addr ip_string p

unfoldable pub session_for : (Bytes → Bytes) → Parsed → Bool → ℕ → ℕ → Service → Service × ℕ
unfolding flow_key open_session find src_addr dst_addr
session_for ip_string p outbound id now s =
    let key = flow_key ip_string p in
    elim (find key s.sessions) [
      | some ptr ↦ (s, ptr)
      | none ↦
          let local = local_addr ip_string p outbound in
          let remote = remote_addr ip_string p outbound in
          (open_session key local remote p.protocol id now s, s.count)
    ]

-- What `Hold` returns, and the payload that it leaves.
unfoldable pub hold : Chunk → Option Resolution → Chunk × Outcome
unfolding finish
hold chunk none = (chunk, record { verdict = verdict_forward; edited = false; note = no_note })
hold chunk (some res) = finish chunk res

-- storeChunk, then trackBytes with `n`.
unfoldable pub account : ℕ → Direction → Bytes → Bool → ℕ → ℕ → Service → Option Service
unfolding store_chunk track_bytes
account ptr dir data_ edited n now s =
    elim (store_chunk s.max_capture dir data_ edited (s.heap ptr)) [
      | none ↦ none
      | some sess ↦ some (record s { heap = update s.heap ptr (track_bytes dir n now sess) })
    ]

-- The bytes to send on, and whether the packet is dropped.
abbrev pub send_on : Bytes → Bool → Option Service → Option (Service × Bytes × Bool)
send_on out drop none = none
send_on out drop (some s) = some (s, out, drop)

-- The rest of processPacket, after the hold.
unfoldable pub complete :
    Bytes
    → Parsed
    → Bytes
    → ℕ
    → Direction
    → ℕ
    → Chunk × Outcome
    → Service
    → Option (Service × Bytes × Bool)
unfolding account replace_payload
complete pkt p old ptr dir now (chunk, oc) s = elim oc.verdict [
  | verdict_drop ↦ send_on [] true (account ptr dir chunk.bytes false (length chunk.bytes) now s)
  | verdict_forward ↦
      if not oc.edited
      then send_on pkt false (account ptr dir chunk.bytes false (length chunk.bytes) now s)
      else elim (replace_payload pkt p chunk.bytes) [
        | ok out ↦ send_on out false (account ptr dir chunk.bytes true (length chunk.bytes) now s)
        | fault ↦ none
        | _ ↦ send_on pkt false (account ptr dir old false p.payload_len now s)
      ]
]

unfoldable pub close_session : ℕ → ℕ → Service → Service
close_session now ptr s =
    let sess = s.heap ptr in
    let rec : Closed = record {
      id = sess.id;
      closed_at = now;
      bytes_up = sess.bytes_up;
      bytes_down = sess.bytes_down;
    } in
    record s { closed = s.closed ++ (ptr, rec) ∷ [] }

unfoldable pub close_all : ℕ → List ℕ → Service → Service
unfolding close_session
close_all now [] s = s
close_all now (ptr ∷ ptrs) s = close_all now ptrs (close_session now ptr s)

-- The entries that stay, and the sessions that are evicted.
unfoldable pub split_idle : ℕ → (ℕ → CapSession) → List (Bytes × ℕ) → List (Bytes × ℕ) × List ℕ
split_idle cutoff heap [] = ([], [])
split_idle cutoff heap ((key, ptr) ∷ sessions) =
    let rest = split_idle cutoff heap sessions in
    if lt64 (heap ptr).last_activity cutoff
    then (rest.0, ptr ∷ rest.1)
    else ((key, ptr) ∷ rest.0, rest.1)

unfoldable pub sweep_idle : ℕ → Service → Service
unfolding split_idle close_all
sweep_idle now s =
    let r = split_idle (sub64 now s.idle_timeout) s.heap s.sessions in
    close_all now r.1 (record s { sessions = r.0 })

unfoldable pub shutdown_common : ℕ → Service → Service
unfolding close_all
shutdown_common now s = close_all now (map (λ e. e.1) s.sessions) (record s { sessions = [] })

-- What the other goroutines do.
pub data Event : Type 0 where
  sweeps shuts_down : ℕ → Event

unfoldable pub happens : List Event → Service → Service
unfolding sweep_idle shutdown_common
happens [] s = s
happens (sweeps now ∷ es) s = happens es (sweep_idle now s)
happens (shuts_down now ∷ es) s = happens es (shutdown_common now s)

-- One packet and what goes with it: the id from the sink, the times before and after the hold, the resolution, and
-- what happens during the hold.
pub record Arrival : Type 0 where
  pub pkt : Bytes
  pub outbound : Bool
  pub id : ℕ
  pub began : ℕ
  pub ended : ℕ
  pub resolution : Option Resolution
  pub events : List Event

unfoldable pub process_packet :
    (Bytes → Bytes) → Arrival → Service → Option (Service × Bytes × Bool)
unfolding parse_packet payload session_for hold complete happens
process_packet ip_string a s = elim (parse_packet a.pkt) [
  | fault ↦ none
  | ok p ↦
      let dir = if a.outbound then relay_up else relay_down in
      let r = session_for ip_string p a.outbound a.id a.began s in
      elim (payload p a.pkt) [
        | ok old ↦
            complete a.pkt p old r.1 dir a.ended (hold (record { bytes = old }) a.resolution)
              (happens a.events r.0)
        | _ ↦ none
      ]
  | _ ↦ some (s, a.pkt, false)
]
