-- ===== src/Capture/Packet/Tests.antt =====
-- Packets that the parser and the rewriter are given.
use proxy_scope.Capture.Packet.Replace.{tcp_replaces}
use proxy_scope.Capture.Packet.Datagram.{udp_length_field, udp_replaces}
use proxy_scope.Capture.Packet.Parse.{word, parse_packet-ne-fault}
use proxy_scope.Prelude.{arith, ℕ, ◌<◌, [], ◌∷◌, ◌≢◌, ◌≡◌, refl, false, ◌↔◌, length, ◌+◌}
use proxy_scope.Prelude.Text.{Bytes}
use proxy_scope.Capture.Packet.{
  uint16, slice, byte, at, parse_udp, parse_tcp, payload, parse_transport, replace_payload,
  parse_ipv4, relay_udp, relay_tcp, fault, parse_packet, Parsed, ok,
}

-- An IPv4 header that announces a TCP header which is cut off.
abbrev cut_off : Bytes
cut_off =
    0x45 ∷ 0 ∷ 0 ∷ 24 ∷ 0 ∷ 0 ∷ 0 ∷ 0 ∷ 64 ∷ 6 ∷ 0 ∷ 0 ∷ 10 ∷ 0 ∷ 0 ∷ 1 ∷ 10 ∷ 0 ∷ 0 ∷ 2 ∷ 0 ∷ 80
    ∷ 1 ∷ 187 ∷ []

parse_packet-ne-fault_example : parse_packet cut_off ≢ fault
parse_packet-ne-fault_example = parse_packet-ne-fault cut_off

-- A TCP segment with three bytes of payload, followed by a byte that is not the packet's.
abbrev segment : Bytes
segment =
    0x45 ∷ 0 ∷ 0 ∷ 43 ∷ 0 ∷ 0 ∷ 0 ∷ 0 ∷ 64 ∷ 6 ∷ 0 ∷ 0 ∷ 10 ∷ 0 ∷ 0 ∷ 1 ∷ 10 ∷ 0 ∷ 0 ∷ 2 ∷ 0 ∷ 80
    ∷ 1 ∷ 187 ∷ 0 ∷ 0 ∷ 0 ∷ 1 ∷ 0 ∷ 0 ∷ 0 ∷ 2 ∷ 0x50 ∷ 0x18 ∷ 1 ∷ 0 ∷ 0 ∷ 0 ∷ 0 ∷ 0 ∷ 97 ∷ 98 ∷ 99
    ∷ 7 ∷ []

abbrev segment_parsed : Parsed
segment_parsed = record {
  ipv6 = false;
  protocol = relay_tcp;
  src_ip = 10 ∷ 0 ∷ 0 ∷ 1 ∷ [];
  dst_ip = 10 ∷ 0 ∷ 0 ∷ 2 ∷ [];
  src_port = 80;
  dst_port = 443;
  tcp_flags = 0x18;
  payload_off = 40;
  payload_len = 3;
}

segment-parses : parse_packet segment ≡ ok segment_parsed
unfolding parse_packet parse_ipv4 parse_transport parse_tcp byte slice uint16
segment-parses = refl

-- A UDP datagram with two bytes of payload.
abbrev datagram : Bytes
datagram =
    0x45 ∷ 0 ∷ 0 ∷ 30 ∷ 0 ∷ 0 ∷ 0 ∷ 0 ∷ 64 ∷ 17 ∷ 0 ∷ 0 ∷ 10 ∷ 0 ∷ 0 ∷ 1 ∷ 10 ∷ 0 ∷ 0 ∷ 2 ∷ 0 ∷ 53
    ∷ 1 ∷ 187 ∷ 0 ∷ 10 ∷ 0 ∷ 0 ∷ 104 ∷ 105 ∷ []

abbrev datagram_parsed : Parsed
datagram_parsed = record {
  ipv6 = false;
  protocol = relay_udp;
  src_ip = 10 ∷ 0 ∷ 0 ∷ 1 ∷ [];
  dst_ip = 10 ∷ 0 ∷ 0 ∷ 2 ∷ [];
  src_port = 53;
  dst_port = 443;
  tcp_flags = 0;
  payload_off = 28;
  payload_len = 2;
}

datagram-parses : parse_packet datagram ≡ ok datagram_parsed
unfolding parse_packet parse_ipv4 parse_transport parse_udp byte slice uint16
datagram-parses = refl

tcp_replaces_example :
    (out : Bytes) × (replace_payload segment segment_parsed (120 ∷ 121 ∷ 122 ∷ []) ≡ ok out)
    × (parse_packet out ≡ ok segment_parsed)
    × (payload segment_parsed out ≡ ok (120 ∷ 121 ∷ 122 ∷ []))
    × (length out ≡ length segment)
    × ((i : ℕ) → i < 40 → at out i ≡ at segment i)
    × ((i : ℕ) → 43 + i < length segment → at out (43 + i) ≡ at segment (43 + i))
tcp_replaces_example =
    tcp_replaces segment segment_parsed (120 ∷ 121 ∷ 122 ∷ []) segment-parses refl refl

udp_replaces_example :
    (out : Bytes) × (replace_payload datagram datagram_parsed (120 ∷ 121 ∷ 122 ∷ []) ≡ ok out)
    × (parse_packet out ≡ ok (record datagram_parsed { payload_len = 3 }))
    × (payload (record datagram_parsed { payload_len = 3 }) out ≡ ok (120 ∷ 121 ∷ 122 ∷ []))
    × (length out ≡ 31)
udp_replaces_example =
    udp_replaces datagram datagram_parsed (120 ∷ 121 ∷ 122 ∷ []) datagram-parses refl (omega arith)

udp_length_field_example :
    (out : Bytes) × (replace_payload datagram datagram_parsed (120 ∷ 121 ∷ 122 ∷ []) ≡ ok out)
    × ((word out 24 ≡ 11) ↔ (11 < 65536))
udp_length_field_example =
    udp_length_field datagram datagram_parsed (120 ∷ 121 ∷ 122 ∷ []) datagram-parses refl
