-- ===== src/Capture/Packet/Layout.antt =====
-- Where a parsed packet has its headers and its payload, in bytes of the packet itself.
use proxy_scope.Prelude.{
  ==_iff, ◌==◌, Bool-cases, inr, ap, ◌∙◌, inl, ◌*◌, ◌⊎◌, length, arith, ◌/◌, ◌-◌, ◌≡◌, ◌≤◌, ◌<◌,
  ◌+◌, ℕ,
}
use proxy_scope.Capture.Packet.{
  Bytes, ok, at, Parsed, Network, parse_transport, parse_tcp, parse_udp,
}
use proxy_scope.Capture.Packet.Buffer.{range, at-range}
use proxy_scope.Capture.Packet.Parse.{
  word, parse_tcp_inv, parse_udp_inv, parse_tcp_fits, parse_udp_fits,
}
use proxy_scope.Chunk.{relay_tcp, relay_udp}

-- The transport header of a packet that ends at `total`, at the offset `off`.
abbrev pub TcpAt : Bytes → ℕ → ℕ → Network → Parsed → Type 0
TcpAt pkt total off n p =
    let data_off = at pkt (off + 12) / 16 * 4 in
    (off + 20 ≤ total)
    × (20 ≤ data_off)
    × (off + data_off ≤ total)
    × (p ≡ record {
      ipv6 = n.ipv6;
      protocol = relay_tcp;
      src_ip = n.src_ip;
      dst_ip = n.dst_ip;
      src_port = word pkt off;
      dst_port = word pkt (off + 2);
      tcp_flags = at pkt (off + 13);
      payload_off = off + data_off;
      payload_len = total - (off + data_off);
    })

abbrev pub UdpAt : Bytes → ℕ → ℕ → Network → Parsed → Type 0
UdpAt pkt total off n p =
    (off + 8 ≤ total)
    × (p ≡ record {
      ipv6 = n.ipv6;
      protocol = relay_udp;
      src_ip = n.src_ip;
      dst_ip = n.dst_ip;
      src_port = word pkt off;
      dst_port = word pkt (off + 2);
      tcp_flags = 0;
      payload_off = off + 8;
      payload_len = total - (off + 8);
    })

abbrev pub TransportAt : Bytes → ℕ → ℕ → ℕ → Network → Parsed → Type 0
TransportAt pkt total off protocol n p =
    ((protocol ≡ 6) × TcpAt pkt total off n p) ⊎ ((protocol ≡ 17) × UdpAt pkt total off n p)

pub at-start : (pkt : Bytes) (total i : ℕ) → i < total → at (range pkt 0 total) i ≡ at pkt i
at-start pkt total i h = at-range pkt 0 total i (omega arith) ∙ ap (at pkt) (omega arith)

module _ (pkt body : Bytes) (total off : ℕ) (n : Network) (p : Parsed) (len : length body ≡ total)
    (same : (i : ℕ) → i < total → at body i ≡ at pkt i) where
  TcpAt-parse : TcpAt pkt total off n p → parse_tcp body off n ≡ ok p
  TcpAt-parse t = ground (
    arith,
    parse_tcp_fits body off n,
    same off,
    same (off + 1),
    same (off + 2),
    same (off + 2 + 1),
    same (off + 12),
    same (off + 13),
  )

  parse-TcpAt : parse_tcp body off n ≡ ok p → TcpAt pkt total off n p
  parse-TcpAt e = ground (
    arith,
    parse_tcp_inv body off n p,
    same off,
    same (off + 1),
    same (off + 2),
    same (off + 2 + 1),
    same (off + 12),
    same (off + 13),
  )

  UdpAt-parse : UdpAt pkt total off n p → parse_udp body off n ≡ ok p
  UdpAt-parse t = ground (
    arith,
    parse_udp_fits body off n,
    same off,
    same (off + 1),
    same (off + 2),
    same (off + 2 + 1),
  )

  parse-UdpAt : parse_udp body off n ≡ ok p → UdpAt pkt total off n p
  parse-UdpAt e = ground (
    arith,
    parse_udp_inv body off n p,
    same off,
    same (off + 1),
    same (off + 2),
    same (off + 2 + 1),
  )

  pub TransportAt-parse :
      (protocol : ℕ)
      → TransportAt pkt total off protocol n p
      → parse_transport body off protocol n ≡ ok p
  unfolding parse_transport
  TransportAt-parse protocol (inl (e, t)) = ground (arith, TcpAt-parse t)
  TransportAt-parse protocol (inr (e, t)) = ground (arith, UdpAt-parse t)

  pub parse-TransportAt :
      (protocol : ℕ)
      → parse_transport body off protocol n ≡ ok p
      → TransportAt pkt total off protocol n p
  unfolding parse_transport
  parse-TransportAt protocol e = elim (Bool-cases (protocol == 6)) [
    | inl a ↦ inl ((==_iff protocol 6).0 a, parse-TcpAt (ground arith))
    | inr a ↦ elim (Bool-cases (protocol == 17)) [
      | inl c ↦ inr ((==_iff protocol 17).0 c, parse-UdpAt (ground arith))
      | inr c ↦ absurd (ground arith)
    ]
  ]
