-- ===== src/Capture/Service/Tests.antt =====
-- Packets through the service.
use proxy_scope.Capture.Service.Counts.{Counts}
use proxy_scope.Capture.Service.Delivery.{opened_for}
use proxy_scope.Prelude.Decimal.{decimal_digits}
use proxy_scope.Capture.Session.{store_chunk, track_bytes, fitting}
use proxy_scope.Prelude.Word.{add64, sub64, lt64}
use proxy_scope.Prelude.Word.{add64}
use proxy_scope.Capture.Service.{
  sweep_idle, split_idle, close_all, close_session, account, hold, complete, open_session, find,
}
use proxy_scope.Capture.Hold.{chunk_mismatch}
use proxy_scope.Prelude.{none, ltb}
use proxy_scope.Capture.Flow.Host.{has_byte-append, decimal_digits-has_byte}
use proxy_scope.Capture.Service.Sessions.{reply_finds_session}
use proxy_scope.Capture.Service.Delivery.{process_packet_forwards, Carries, process_packet_refused}
use proxy_scope.Capture.Flow.Key.{flow_key_iff, SameFlow}
use proxy_scope.Capture.Service.Fits.{Fits}
use proxy_scope.Capture.Flow.{flow_key}
use proxy_scope.Capture.Session.{fitting, CapSession}
use proxy_scope.Capture.Service.Lifecycle.{
  sessions_closed_once, closed_pointers, times, Accounted, run_all,
}
use proxy_scope.Capture.Packet.{
  uint16, byte, parse_udp, ok, parse_transport, slice, parse_ipv4, payload, parse_packet, Parsed,
}
use proxy_scope.Capture.Service.{
  open_session, shutdown_common, find, shuts_down, no_note, dst_addr, src_addr, sweeps, relay_up,
  process_packet, happens, Arrival, update, new_session, new_service, Service, session_for,
}
use proxy_scope.Prelude.{
  if◌then◌else◌, inr, refl, ℕ, some, ◌++◌, arith, true, false, ◌↔◌, [], ◌∷◌, ◌≡◌, Option,
}
use proxy_scope.Chunk.{relay_udp, Resolution}
use proxy_scope.Prelude.Text.{Bytes, has_byte}

-- The bytes of an address as decimal numbers.
unfoldable pub dotted : Bytes → Bytes
dotted [] = []
dotted (b ∷ s) = decimal_digits 3 b ++ b'.' ∷ dotted s

dotted-has_byte : (a : Bytes) → has_byte (dotted a) b'|' ≡ false
unfolding has_byte dotted
dotted-has_byte [] = refl
dotted-has_byte (b ∷ s) = ground (
  arith,
  decimal_digits-has_byte 3 b b'|',
  has_byte-append (decimal_digits 3 b) (b'.' ∷ dotted s) b'|',
  dotted-has_byte s,
)

-- A datagram and the reply to it.
abbrev query : Parsed
query = record {
  ipv6 = false;
  protocol = relay_udp;
  src_ip = 10 ∷ 0 ∷ 0 ∷ 1 ∷ [];
  dst_ip = 10 ∷ 0 ∷ 0 ∷ 2 ∷ [];
  src_port = 53;
  dst_port = 443;
  tcp_flags = 0;
  payload_off = 28;
  payload_len = 2;
}

abbrev reply : Parsed
reply = record query {
  src_ip = query.dst_ip;
  dst_ip = query.src_ip;
  src_port = query.dst_port;
  dst_port = query.src_port;
}

flow_key_iff_example : (flow_key dotted query ≡ flow_key dotted reply) ↔ SameFlow dotted query reply
flow_key_iff_example =
    flow_key_iff dotted query reply dotted-has_byte (omega arith) (omega arith) (omega arith)
      (omega arith)

abbrev service : Service
service = new_service [] 100 60

reply_finds_session_example :
    session_for dotted reply false 8 5 (session_for dotted query true 7 0 service).0
    ≡ session_for dotted query true 7 0 service
reply_finds_session_example =
    reply_finds_session dotted query reply true false 7 8 0 5 service dotted-has_byte (omega arith)
      (omega arith) (omega arith) (omega arith) (refl, inr (refl, refl))

abbrev datagram : Bytes
datagram =
    0x45 ∷ 0 ∷ 0 ∷ 30 ∷ 0 ∷ 0 ∷ 0 ∷ 0 ∷ 64 ∷ 17 ∷ 0 ∷ 0 ∷ 10 ∷ 0 ∷ 0 ∷ 1 ∷ 10 ∷ 0 ∷ 0 ∷ 2 ∷ 0 ∷ 53
    ∷ 1 ∷ 187 ∷ 0 ∷ 10 ∷ 0 ∷ 0 ∷ 104 ∷ 105 ∷ []

datagram-parses : parse_packet datagram ≡ ok query
unfolding parse_packet parse_ipv4 parse_transport parse_udp byte slice uint16
datagram-parses = refl

datagram-payload : payload query datagram ≡ ok (104 ∷ 105 ∷ [])
unfolding payload slice
datagram-payload = refl

-- The datagram is held and edited; meanwhile the sweep and the shutdown run.
abbrev edited : Resolution
edited = record { drop = false; chunk = some (record { bytes = 1 ∷ 2 ∷ 3 ∷ [] }); note = no_note }

abbrev arrival : Option Resolution → Arrival
arrival res = record {
  pkt = datagram;
  outbound = true;
  id = 7;
  began = 0;
  ended = 9;
  resolution = res;
  events = sweeps 5 ∷ shuts_down 6 ∷ [];
}

service-Fits : Fits service
unfolding new_service
service-Fits = (omega arith, λ ptr. (omega arith, omega arith))

process_packet_forwards_example :
    (s' : Service) × (out : Bytes) × (process_packet dotted (arrival (some edited)) service
      ≡ some (s', out, false))
    × Carries query (1 ∷ 2 ∷ 3 ∷ []) out
    × Fits s'
unfolding chunk_mismatch new_service
process_packet_forwards_example =
    process_packet_forwards dotted (arrival (some edited)) service query (104 ∷ 105 ∷ [])
      datagram-parses datagram-payload refl refl service-Fits (omega arith) (λ u. omega arith)

process_packet_refused_example :
    (s' : Service) × (process_packet dotted (arrival (some (record edited { drop = true }))) service
      ≡ some (s', [], true))
    × Fits s'
    × Counts service.max_capture relay_up
        (104 ∷ 105 ∷ [])
        9
        (opened_for dotted query (arrival (some (record edited { drop = true }))) service)
        (s'.heap (session_for dotted query true 7 0 service).1)
unfolding new_service
process_packet_refused_example =
    process_packet_refused dotted (arrival (some (record edited { drop = true }))) service query
      (104 ∷ 105 ∷ []) datagram-parses datagram-payload refl service-Fits (omega arith)

-- The session of the datagram after it was forwarded, and the service after that.
abbrev opened_session : CapSession
opened_session =
    new_session 7 (flow_key dotted query) (src_addr dotted query) (dst_addr dotted query) relay_udp
      0

abbrev query_session : CapSession
query_session = record opened_session {
  seq = 1;
  last_activity = 9;
  bytes_up = 2;
  up = record { captured = 2; cap_reached = false };
  saved =
      record {
        seq = 1;
        direction = relay_up;
        data_ = 104 ∷ 105 ∷ [];
        data_size = 2;
        edited = false;
        capped = false;
      }
      ∷ [];
}

abbrev after_query : Service
after_query = record service {
  heap = update (update service.heap 0 opened_session) 0 query_session;
  count = 1;
  opened =
      record {
        target = [];
        protocol = relay_udp;
        client_addr = src_addr dotted query;
        upstream_addr = dst_addr dotted query;
        opened_at = 0;
      }
      ∷ [];
  closed = (0, record { id = 7; closed_at = 6; bytes_up = 0; bytes_down = 0 }) ∷ [];
}

query-runs : run_all dotted (arrival none ∷ []) service ≡ some after_query
unfolding run_all process_packet parse_packet parse_ipv4 parse_transport parse_udp byte slice uint16
    payload session_for find open_session happens sweep_idle shutdown_common split_idle close_all
    close_session complete hold account store_chunk fitting track_bytes new_service add64 sub64 lt64
query-runs = refl

sessions_closed_once_example :
    Accounted (happens (sweeps 70 ∷ []) after_query)
    × ((i : ℕ)
        → times i (closed_pointers (shutdown_common 80 (happens (sweeps 70 ∷ []) after_query)))
          ≡ (if ltb i (happens (sweeps 70 ∷ []) after_query).count then 1 else 0))
sessions_closed_once_example =
    sessions_closed_once dotted [] 100 60 (arrival none ∷ []) after_query (sweeps 70 ∷ []) 80
      query-runs
