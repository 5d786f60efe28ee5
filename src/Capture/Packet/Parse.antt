-- ===== src/Capture/Packet/Parse.antt =====
-- What a successful parse says of the packet, and that no parse reads out of range.
use proxy_scope.Capture.Packet.Buffer.{range}
use proxy_scope.Prelude.{
  inr, inl, Bool-cases, ◌==◌, not, ◌||◌, ltb, refl, le→leb, ◌%◌, true, false, ◌-◌, ◌<◌, ◌/◌, arith,
  length, ◌≤◌, ◌+◌, ◌≢◌, ◌*◌, ◌≡◌, ℕ,
}
use proxy_scope.Capture.Packet.{
  refuse_if, byte, ◌>>◌, slice, Result, unparseable, clip, parse_transport, parse_ipv4,
  parse_packet, parse_ipv6, ok, fault, at, Parsed, Network, uint16, parse_tcp, parse_udp,
}
use proxy_scope.Prelude.Text.{Bytes}
use proxy_scope.Chunk.{relay_tcp, relay_udp}

abbrev pub word : Bytes → ℕ → ℕ
word s i = at s i * 256 + at s (i + 1)

abbrev pub tcp_data_off : Bytes → ℕ → ℕ
tcp_data_off pkt off = at pkt (off + 12) / 16 * 4

-- The TCP header at an offset, with its options, lies in the packet.
abbrev pub TcpFits : Bytes → ℕ → Type 0
TcpFits pkt off =
    (off + 20 ≤ length pkt)
    × (20 ≤ tcp_data_off pkt off)
    × (off + tcp_data_off pkt off ≤ length pkt)

abbrev pub tcp_view : Bytes → ℕ → Network → Parsed
tcp_view pkt off n = record {
  ipv6 = n.ipv6;
  protocol = relay_tcp;
  src_ip = n.src_ip;
  dst_ip = n.dst_ip;
  src_port = word pkt off;
  dst_port = word pkt (off + 2);
  tcp_flags = at pkt (off + 13);
  payload_off = off + tcp_data_off pkt off;
  payload_len = length pkt - (off + tcp_data_off pkt off);
}

abbrev pub udp_view : Bytes → ℕ → Network → Parsed
udp_view pkt off n = record {
  ipv6 = n.ipv6;
  protocol = relay_udp;
  src_ip = n.src_ip;
  dst_ip = n.dst_ip;
  src_port = word pkt off;
  dst_port = word pkt (off + 2);
  tcp_flags = 0;
  payload_off = off + 8;
  payload_len = length pkt - (off + 8);
}

uint16-word : (s : Bytes) (i : ℕ) → i + 1 < length s → uint16 s i ≡ ok (word s i)
unfolding uint16
uint16-word s i h = ground arith

pub byte-at : (s : Bytes) (i : ℕ) → i < length s → byte s i ≡ ok (at s i)
unfolding byte
byte-at s i h = ground arith

pub slice-range : (s : Bytes) (a b : ℕ) → a ≤ b → b ≤ length s → slice s a b ≡ ok (range s a b)
unfolding slice
slice-range s a b h k = rw (le→leb a b h) (rw (le→leb b (length s) k) refl)

pub clip-le : (n : ℕ) (pkt : Bytes) → (clip n pkt ≤ length pkt) × (clip n pkt ≤ n)
clip-le n pkt = ground arith

pub parse_tcp_fits :
    (pkt : Bytes) (off : ℕ) (n : Network)
    → TcpFits pkt off
    → parse_tcp pkt off n ≡ ok (tcp_view pkt off n)
unfolding parse_tcp
parse_tcp_fits pkt off n f = ground arith

pub parse_tcp_inv :
    (pkt : Bytes) (off : ℕ) (n : Network) (p : Parsed)
    → parse_tcp pkt off n ≡ ok p
    → TcpFits pkt off × (p ≡ tcp_view pkt off n)
unfolding parse_tcp
parse_tcp_inv pkt off n p e = ground arith

parse_tcp-ne-fault : (pkt : Bytes) (off : ℕ) (n : Network) → parse_tcp pkt off n ≢ fault
unfolding parse_tcp
parse_tcp-ne-fault pkt off n = ground arith

pub parse_udp_fits :
    (pkt : Bytes) (off : ℕ) (n : Network)
    → off + 8 ≤ length pkt
    → parse_udp pkt off n ≡ ok (udp_view pkt off n)
unfolding parse_udp
parse_udp_fits pkt off n f = ground arith

pub parse_udp_inv :
    (pkt : Bytes) (off : ℕ) (n : Network) (p : Parsed)
    → parse_udp pkt off n ≡ ok p
    → (off + 8 ≤ length pkt) × (p ≡ udp_view pkt off n)
unfolding parse_udp
parse_udp_inv pkt off n p e = ground arith

parse_udp-ne-fault : (pkt : Bytes) (off : ℕ) (n : Network) → parse_udp pkt off n ≢ fault
unfolding parse_udp
parse_udp-ne-fault pkt off n = ground arith

parse_transport-ne-fault :
    (pkt : Bytes) (off protocol : ℕ) (n : Network) → parse_transport pkt off protocol n ≢ fault
unfolding parse_transport
parse_transport-ne-fault pkt off protocol n =
    ground (arith, parse_tcp-ne-fault pkt off n, parse_udp-ne-fault pkt off n)

abbrev pub ihl_of : Bytes → ℕ
ihl_of pkt = at pkt 0 % 16 * 4

abbrev pub net4 : Bytes → Network
net4 pkt = record { ipv6 = false; src_ip = range pkt 12 16; dst_ip = range pkt 16 20 }

abbrev pub net6 : Bytes → Network
net6 pkt = record { ipv6 = true; src_ip = range pkt 8 24; dst_ip = range pkt 24 40 }

-- The header of an unfragmented IPv4 packet.
abbrev pub Ipv4Fits : Bytes → Type 0
Ipv4Fits pkt =
    (20 ≤ ihl_of pkt)
    × (ihl_of pkt ≤ length pkt)
    × (word pkt 6 / 0x2000 % 2 ≡ 0)
    × (word pkt 6 % 0x2000 ≡ 0)

-- The packet without padding.
abbrev pub body4 : Bytes → Bytes
body4 pkt = range pkt 0 (clip (word pkt 2) pkt)

abbrev pub body6 : Bytes → Bytes
body6 pkt = range pkt 0 (clip (40 + word pkt 4) pkt)

-- The guards of the IPv4 header.
abbrev pub guards4 : Bytes → Result (Unit {0})
guards4 pkt = do
  refuse_if (ltb (ihl_of pkt) 20 || ltb (length pkt) (ihl_of pkt))
  refuse_if (not (word pkt 6 / 0x2000 % 2 == 0) || not (word pkt 6 % 0x2000 == 0))

pub parse_ipv4_view :
    (pkt : Bytes)
    → 20 ≤ length pkt
    → parse_ipv4 pkt
      ≡ (guards4 pkt >> parse_transport (body4 pkt) (ihl_of pkt) (at pkt 9) (net4 pkt))
unfolding parse_ipv4
parse_ipv4_view pkt h = ground (
  arith,
  byte-at pkt 0,
  byte-at pkt 9,
  uint16-word pkt 6,
  uint16-word pkt 2,
  slice-range pkt 12 16,
  slice-range pkt 16 20,
  clip-le (word pkt 2) pkt,
  slice-range pkt 0 (clip (word pkt 2) pkt),
)

pub parse_ipv6_fits :
    (pkt : Bytes)
    → 40 ≤ length pkt
    → parse_ipv6 pkt ≡ parse_transport (body6 pkt) 40 (at pkt 6) (net6 pkt)
unfolding parse_ipv6
parse_ipv6_fits pkt h = ground (
  arith,
  byte-at pkt 6,
  uint16-word pkt 4,
  slice-range pkt 8 24,
  slice-range pkt 24 40,
  clip-le (40 + word pkt 4) pkt,
  slice-range pkt 0 (clip (40 + word pkt 4) pkt),
)

pub parse_ipv4_short : (pkt : Bytes) → length pkt < 20 → parse_ipv4 pkt ≡ unparseable
unfolding parse_ipv4
parse_ipv4_short pkt h = ground arith

pub parse_ipv6_short : (pkt : Bytes) → length pkt < 40 → parse_ipv6 pkt ≡ unparseable
unfolding parse_ipv6
parse_ipv6_short pkt h = ground arith

parse_ipv6_cases : (pkt : Bytes) → parse_ipv6 pkt ≢ fault
parse_ipv6_cases pkt = ground (
  arith,
  parse_ipv6_short pkt,
  parse_ipv6_fits pkt,
  parse_transport-ne-fault (body6 pkt) 40 (at pkt 6) (net6 pkt),
)

-- No packet, however short or malformed, makes the parser read out of range.
pub parse_packet-ne-fault : (pkt : Bytes) → parse_packet pkt ≢ fault
unfolding parse_packet
parse_packet-ne-fault pkt = elim (Bool-cases (ltb (length pkt) 1)) [
  | inl e ↦ ground arith
  | inr e ↦ elim (Bool-cases (ltb (length pkt) 20)) [
    | inl f ↦ ground (arith, byte-at pkt 0, parse_ipv4_short pkt, parse_ipv6_cases pkt)
    | inr f ↦ ground (
      arith,
      byte-at pkt 0,
      parse_ipv4_view pkt,
      parse_ipv6_cases pkt,
      parse_transport-ne-fault (body4 pkt) (ihl_of pkt) (at pkt 9) (net4 pkt),
    )
  ]
]
