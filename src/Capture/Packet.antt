-- ===== src/Capture/Packet.antt =====
-- internal/sysCapture/packet.go: parsing a captured IP packet, and replacing its payload. A packet is a
-- list of bytes. An index or a slice out of range is a `fault`, where the Go program would panic.
pub mod Buffer
pub mod Parse
pub mod Layout
pub mod Frame
pub mod Replace
pub mod Datagram
mod Tests
use Prim.Native.Nat.{zero}
use proxy_scope.Prelude.{
  drop, take, ◌||◌, ◌&&◌, [], ◌/◌, ◌%◌, suc, length, ◌*◌, leb, ◌-◌, ◌==◌, not, false, ◌∷◌, ltb,
  if◌then◌else◌, ◌++◌, true, ◌+◌, ℕ, Bool,
}
use proxy_scope.Prelude.Text.{Bytes}
use proxy_scope.Chunk.{Protocol, relay_tcp, relay_udp}

pub data Result (A : Type 0) : Type 0 where
  ok : A → Result A
  unparseable : Result A
  length_mismatch : Result A
  fault : Result A

infixl 5 ◌>>=◌ ◌>>◌
abbrev pub ◌>>=◌ : {A B : Type 0} → Result A → (A → Result B) → Result B
fault >>= next = fault
unparseable >>= next = unparseable
length_mismatch >>= next = length_mismatch
ok a >>= next = next a

abbrev pub ◌>>◌ : {B : Type 0} → Result (Unit {0}) → Result B → Result B
m >> k = m >>= λ _. k

-- `if test { return errUnparseable }`.
abbrev pub refuse_if : Bool → Result (Unit {0})
refuse_if true = unparseable
refuse_if false = ok tt

-- The byte at an index; 0 past the end.
abbrev pub at : Bytes → ℕ → ℕ
at [] i = 0
at (c ∷ s) zero = c
at (c ∷ s) (suc i) = at s i

unfoldable pub byte : Bytes → ℕ → Result ℕ
byte s i = if ltb i (length s) then ok (at s i) else fault

-- s[a:b].
unfoldable pub slice : Bytes → ℕ → ℕ → Result Bytes
slice s a b = if leb a b && leb b (length s) then ok (take (b - a) (drop a s)) else fault

-- binary.BigEndian.Uint16(s[i:i+2]).
unfoldable pub uint16 : Bytes → ℕ → Result ℕ
unfolding byte
uint16 s i = do hi ← byte s i; lo ← byte s (i + 1); ok (hi * 256 + lo)

pub record Parsed : Type 0 where
  pub ipv6 : Bool
  pub protocol : Protocol
  pub src_ip : Bytes
  pub dst_ip : Bytes
  pub src_port : ℕ
  pub dst_port : ℕ
  pub tcp_flags : ℕ
  pub payload_off : ℕ
  pub payload_len : ℕ

-- The bytes of a packet up to its transport header.
pub record Network : Type 0 where
  pub ipv6 : Bool
  pub src_ip : Bytes
  pub dst_ip : Bytes

unfoldable pub parse_tcp : Bytes → ℕ → Network → Result Parsed
unfolding byte uint16
parse_tcp pkt off n = do
  refuse_if (ltb (length pkt) (off + 20))
  d ← byte pkt (off + 12)
  let data_off = d / 16 * 4
  refuse_if (ltb data_off 20 || ltb (length pkt) (off + data_off))
  src ← uint16 pkt off
  dst ← uint16 pkt (off + 2)
  flags ← byte pkt (off + 13)
  refuse_if (ltb (length pkt) (off + data_off))
  ok (record {
    ipv6 = n.ipv6;
    protocol = relay_tcp;
    src_ip = n.src_ip;
    dst_ip = n.dst_ip;
    src_port = src;
    dst_port = dst;
    tcp_flags = flags;
    payload_off = off + data_off;
    payload_len = length pkt - (off + data_off);
  })

unfoldable pub parse_udp : Bytes → ℕ → Network → Result Parsed
unfolding byte uint16
parse_udp pkt off n = do
  refuse_if (ltb (length pkt) (off + 8))
  src ← uint16 pkt off
  dst ← uint16 pkt (off + 2)
  refuse_if (ltb (length pkt) (off + 8))
  ok (record {
    ipv6 = n.ipv6;
    protocol = relay_udp;
    src_ip = n.src_ip;
    dst_ip = n.dst_ip;
    src_port = src;
    dst_port = dst;
    tcp_flags = 0;
    payload_off = off + 8;
    payload_len = length pkt - (off + 8);
  })

unfoldable pub parse_transport : Bytes → ℕ → ℕ → Network → Result Parsed
parse_transport pkt off protocol n =
    if protocol == 6
    then parse_tcp pkt off n
    else if protocol == 17
    then parse_udp pkt off n
    else unparseable

-- `if n > len(pkt) { n = len(pkt) }`.
abbrev pub clip : ℕ → Bytes → ℕ
clip n pkt = if ltb (length pkt) n then length pkt else n

unfoldable pub parse_ipv4 : Bytes → Result Parsed
parse_ipv4 pkt = do
  refuse_if (ltb (length pkt) 20)
  b ← byte pkt 0
  let ihl = b % 16 * 4
  refuse_if (ltb ihl 20 || ltb (length pkt) ihl)
  flags_and_frag ← uint16 pkt 6
  refuse_if (not (flags_and_frag / 0x2000 % 2 == 0) || not (flags_and_frag % 0x2000 == 0))
  total_len ← uint16 pkt 2
  src ← slice pkt 12 16
  dst ← slice pkt 16 20
  protocol ← byte pkt 9
  sub ← slice pkt 0 (clip total_len pkt)
  parse_transport sub ihl protocol (record { ipv6 = false; src_ip = src; dst_ip = dst })

unfoldable pub parse_ipv6 : Bytes → Result Parsed
parse_ipv6 pkt = do
  refuse_if (ltb (length pkt) 40)
  next_hdr ← byte pkt 6
  payload_len ← uint16 pkt 4
  src ← slice pkt 8 24
  dst ← slice pkt 24 40
  sub ← slice pkt 0 (clip (40 + payload_len) pkt)
  parse_transport sub 40 next_hdr (record { ipv6 = true; src_ip = src; dst_ip = dst })

unfoldable pub parse_packet : Bytes → Result Parsed
parse_packet pkt = do
  refuse_if (ltb (length pkt) 1)
  b ← byte pkt 0
  if b / 16 == 4 then parse_ipv4 pkt else if b / 16 == 6 then parse_ipv6 pkt else unparseable

unfoldable pub payload : Parsed → Bytes → Result Bytes
unfolding slice
payload p pkt = slice pkt p.payload_off (p.payload_off + p.payload_len)

-- s[i] = v.
abbrev pub set : Bytes → ℕ → ℕ → Bytes
set [] i v = []
set (c ∷ s) zero v = v ∷ s
set (c ∷ s) (suc i) v = c ∷ set s i v

-- binary.BigEndian.PutUint16(s[i:i+2], uint16(v)).
unfoldable pub put_uint16 : Bytes → ℕ → ℕ → Result Bytes
put_uint16 s i v =
    if ltb (i + 1) (length s) then ok (set (set s i (v % 65536 / 256)) (i + 1) (v % 256)) else fault

unfoldable pub replace_tcp : Bytes → Parsed → Bytes → Result Bytes
unfolding slice
replace_tcp pkt p new = do
  head ← slice pkt 0 p.payload_off
  old ← slice pkt p.payload_off (p.payload_off + p.payload_len)
  rest ← slice pkt (p.payload_off + p.payload_len) (length pkt)
  ok (head ++ (new ++ rest))

unfoldable pub replace_udp : Bytes → Parsed → Bytes → Result Bytes
unfolding slice put_uint16
replace_udp pkt p new = do
  head ← slice pkt 0 p.payload_off
  let out = head ++ new
  out' ← put_uint16 out (p.payload_off - 8 + 4) (8 + length new)
  if p.ipv6 then put_uint16 out' 4 (length out' - 40) else put_uint16 out' 2 (length out')

unfoldable pub replace_payload : Bytes → Parsed → Bytes → Result Bytes
replace_payload pkt p new = elim p.protocol [
  | relay_tcp ↦ if not (length new == p.payload_len) then length_mismatch else replace_tcp pkt p new
  | relay_udp ↦ replace_udp pkt p new
]
