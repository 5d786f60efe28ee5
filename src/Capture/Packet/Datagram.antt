-- ===== src/Capture/Packet/Datagram.antt =====
-- Replacing the payload of a UDP packet, and the length fields that change with it.
use proxy_scope.Capture.Packet.Replace.{
  payload_bounds, TransportAt-bounds, Frame6-moves, Frame4-moves,
}
use proxy_scope.Capture.Packet.Frame.{parse_packet-Frame, total4, total6, Frame-parse_packet, Frame}
use proxy_scope.Prelude.{
  ◌↔◌, true, false, inr, inl, refl, ap, length-append, sym, ◌∙◌, ◌/◌, ◌<◌, arith, ◌%◌, ◌+◌, ◌++◌,
  if◌then◌else◌, ◌≡◌, ◌-◌, ◌≢◌, ◌≤◌, ℕ, length,
}
use proxy_scope.Prelude.Text.{Bytes}
use proxy_scope.Capture.Packet.{
  clip, payload, relay_udp, replace_udp, parse_packet, replace_payload, Parsed, ok, at, set,
  put_uint16,
}
use proxy_scope.Capture.Packet.Buffer.{
  range_is, at-append_right, at-range, at-append_left, range, length-range, length-set, at-set_self,
  at-set_ne,
}
use proxy_scope.Capture.Packet.Parse.{net6, net4, ihl_of, slice-range, word}

-- Two bytes in network order.
abbrev patch : Bytes → ℕ → ℕ → Bytes
patch s i v = set (set s i (v % 65536 / 256)) (i + 1) (v % 256)

put_uint16-patch : (s : Bytes) (i v : ℕ) → i + 1 < length s → put_uint16 s i v ≡ ok (patch s i v)
unfolding put_uint16
put_uint16-patch s i v h = ground arith

length-patch : (s : Bytes) (i v : ℕ) → length (patch s i v) ≡ length s
length-patch s i v =
    length-set (set s i (v % 65536 / 256)) (i + 1) (v % 256) ∙ length-set s i (v % 65536 / 256)

word-patch : (s : Bytes) (i v : ℕ) → i + 1 < length s → word (patch s i v) i ≡ v % 65536
word-patch s i v h = omega (
  arith,
  at-set_ne (set s i (v % 65536 / 256)) (i + 1) i (v % 256) (omega arith),
  at-set_self s i (v % 65536 / 256) (omega arith),
  at-set_self (set s i (v % 65536 / 256)) (i + 1) (v % 256)
      (omega (arith, length-set s i (v % 65536 / 256))),
)

at-patch : (s : Bytes) (i v j : ℕ) → j ≢ i → j ≢ i + 1 → at (patch s i v) j ≡ at s j
at-patch s i v j h k =
    at-set_ne (set s i (v % 65536 / 256)) (i + 1) j (v % 256) (λ e. k (sym e))
    ∙ at-set_ne s i j (v % 65536 / 256) (λ e. h (sym e))

clip_all : (n : ℕ) (s : Bytes) {k : ℕ} → n ≡ k → length s ≡ k → clip n s ≡ k
clip_all n s e l = ground arith

-- Where the length field of the IP header stands, and what it counts.
abbrev ip_field : Parsed → ℕ
ip_field p = if p.ipv6 then 4 else 2

abbrev ip_length : Parsed → ℕ → ℕ
ip_length p n = if p.ipv6 then n - 40 else n

module _ (pkt new : Bytes) (p : Parsed) (fits : p.payload_off ≤ length pkt)
    (far : 28 ≤ p.payload_off) where
  abbrev udp_field : ℕ
  udp_field = p.payload_off - 8 + 4

  abbrev joined : Bytes
  joined = range pkt 0 p.payload_off ++ new

  abbrev counted : Bytes
  counted = patch joined udp_field (8 + length new)

  abbrev rebuilt : Bytes
  rebuilt = patch counted (ip_field p) (ip_length p (length counted))

  length-joined : length joined ≡ p.payload_off + length new
  length-joined =
      omega (
        arith,
        length-append (range pkt 0 p.payload_off) new,
        length-range pkt 0 p.payload_off fits,
      )

  length-counted : length counted ≡ p.payload_off + length new
  length-counted = length-patch joined udp_field (8 + length new) ∙ length-joined

  length-rebuilt : length rebuilt ≡ p.payload_off + length new
  length-rebuilt = length-patch counted (ip_field p) (ip_length p (length counted)) ∙ length-counted

  field_small : ip_field p ≤ 4
  field_small = ground arith

  replace_udp-rebuilt : p.protocol ≡ relay_udp → replace_payload pkt p new ≡ ok rebuilt
  unfolding replace_payload replace_udp
  replace_udp-rebuilt t = ground (
    arith,
    slice-range pkt 0 p.payload_off,
    length-joined,
    length-counted,
    put_uint16-patch joined udp_field (8 + length new),
    put_uint16-patch counted 4 (length counted - 40),
    put_uint16-patch counted 2 (length counted),
  )

  at-joined : (i : ℕ) → i < p.payload_off → at joined i ≡ at pkt i
  at-joined i h =
      at-append_left (range pkt 0 p.payload_off) new i
        (omega (arith, length-range pkt 0 p.payload_off fits))
      ∙ at-range pkt 0 p.payload_off i (omega arith)
      ∙ ap (at pkt) (omega arith)

  at-rebuilt :
      (i : ℕ)
      → i ≢ 2
      → i ≢ 3
      → i ≢ 4
      → i ≢ 5
      → i + 4 ≢ p.payload_off
      → i + 3 ≢ p.payload_off
      → at rebuilt i ≡ at joined i
  at-rebuilt i a b c d x y =
      at-patch counted (ip_field p) (ip_length p (length counted)) i (ground arith) (ground arith)
      ∙ at-patch joined udp_field (8 + length new) i (omega arith) (omega arith)

  at-rebuilt_fresh : (i : ℕ) → i < length new → at rebuilt (p.payload_off + i) ≡ at new i
  at-rebuilt_fresh i h =
      at-rebuilt (p.payload_off + i) (omega arith) (omega arith) (omega arith) (omega arith)
        (omega arith) (omega arith)
      ∙ ap (λ k. at joined (k + i)) (omega (arith, length-range pkt 0 p.payload_off fits))
      ∙ at-append_right (range pkt 0 p.payload_off) new i

  word-udp_field : word rebuilt udp_field ≡ (8 + length new) % 65536
  word-udp_field = omega (
    arith,
    field_small,
    at-patch counted (ip_field p) (ip_length p (length counted)) udp_field
        (omega (arith, field_small)) (omega (arith, field_small)),
    at-patch counted (ip_field p) (ip_length p (length counted)) (udp_field + 1)
        (omega (arith, field_small)) (omega (arith, field_small)),
    word-patch joined udp_field (8 + length new) (omega (arith, length-joined)),
  )

  word-ip_field : word rebuilt (ip_field p) ≡ ip_length p (p.payload_off + length new) % 65536
  word-ip_field =
      word-patch counted (ip_field p) (ip_length p (length counted))
        (omega (arith, length-counted, field_small))
      ∙ rw length-counted refl

  total4-rebuilt :
      p.ipv6 ≡ false
      → p.payload_off + length new < 65536
      → total4 rebuilt ≡ p.payload_off + length new
  total4-rebuilt v h = clip_all (word rebuilt 2) rebuilt counts length-rebuilt
    where
      counts : word rebuilt 2 ≡ p.payload_off + length new
      counts = ap (word rebuilt) (rw v refl) ∙ word-ip_field ∙ rw v (omega arith)

  total6-rebuilt :
      p.ipv6 ≡ true
      → 48 ≤ p.payload_off
      → p.payload_off + length new < 65536
      → total6 rebuilt ≡ p.payload_off + length new
  total6-rebuilt v k h = clip_all (40 + word rebuilt 4) rebuilt counts length-rebuilt
    where
      field : word rebuilt 4 ≡ p.payload_off + length new - 40
      field = ap (word rebuilt) (rw v refl) ∙ word-ip_field ∙ rw v (omega arith)

      counts : 40 + word rebuilt 4 ≡ p.payload_off + length new
      counts = omega (arith, field)

  udp_parses :
      p.payload_off + length new < 65536
      → Frame pkt p
      → parse_packet rebuilt ≡ ok (record p { payload_len = length new })
  udp_parses small (inl f) =
      Frame-parse_packet rebuilt (record p { payload_len = length new })
        (inl (
          Frame4-moves pkt rebuilt p (length new) (omega (arith, length-rebuilt))
            (λ i h a b c d x y. at-rebuilt i a b c d x y ∙ at-joined i h)
            (total4-rebuilt
              (TransportAt-bounds pkt (total4 pkt) (ihl_of pkt) (at pkt 9) (net4 pkt) p f.3).2
              small)
            f))
  udp_parses small (inr f) =
      Frame-parse_packet rebuilt (record p { payload_len = length new })
        (inr (
          Frame6-moves pkt rebuilt p (length new) (omega (arith, length-rebuilt))
            (λ i h a b c d x y. at-rebuilt i a b c d x y ∙ at-joined i h)
            (total6-rebuilt (TransportAt-bounds pkt (total6 pkt) 40 (at pkt 6) (net6 pkt) p f.2).2
              (omega (arith, TransportAt-bounds pkt (total6 pkt) 40 (at pkt 6) (net6 pkt) p f.2))
              small)
            f))

-- A UDP payload is exchanged for one of any length, as long as the new packet is shorter than 65536
-- bytes: the packet parses as before, but for the length of its payload, and its payload is the new one.
pub udp_replaces :
    (pkt : Bytes) (p : Parsed) (new : Bytes)
    → parse_packet pkt ≡ ok p
    → p.protocol ≡ relay_udp
    → p.payload_off + length new < 65536
    → (out : Bytes) × (replace_payload pkt p new ≡ ok out)
      × (parse_packet out ≡ ok (record p { payload_len = length new }))
      × (payload (record p { payload_len = length new }) out ≡ ok new)
      × (length out ≡ p.payload_off + length new)
unfolding payload
udp_replaces pkt p new e t small =
    let b = payload_bounds pkt p e in
    let fits : p.payload_off ≤ length pkt = omega arith in
    let off = p.payload_off in
    let out = rebuilt pkt new p fits b.0 in
    let size = length-rebuilt pkt new p fits b.0 in
    (
      out,
      replace_udp-rebuilt pkt new p fits b.0 t,
      udp_parses pkt new p fits b.0 small (parse_packet-Frame pkt p e),
      slice-range out off (off + length new) (omega arith) (omega arith)
          ∙ ap ok (range_is out new off (omega arith) (at-rebuilt_fresh pkt new p fits b.0)),
      size,
    )

-- The UDP length field of the new packet is the length of the new datagram exactly if that fits 16 bits; nothing is refused.
pub udp_length_field :
    (pkt : Bytes) (p : Parsed) (new : Bytes)
    → parse_packet pkt ≡ ok p
    → p.protocol ≡ relay_udp
    → (out : Bytes) × (replace_payload pkt p new ≡ ok out)
      × ((word out (p.payload_off - 8 + 4) ≡ 8 + length new) ↔ (8 + length new < 65536))
udp_length_field pkt p new e t =
    let b = payload_bounds pkt p e in
    let fits : p.payload_off ≤ length pkt = omega arith in
    let w = word-udp_field pkt new p fits b.0 in
    (
      rebuilt pkt new p fits b.0,
      replace_udp-rebuilt pkt new p fits b.0 t,
      ((λ h. omega arith), (λ h. omega arith)),
    )
