-- ===== src/Capture/Packet/Frame.antt =====
-- The whole frame of a parsed packet: its IP header, and the transport header behind it.
use proxy_scope.Prelude.{
  refl, sym, ◌≤◌, ◌∙◌, ◌+◌, arith, ℕ, ◌≡◌, ◌⊎◌, ◌/◌, length, ltb, ◌==◌, Bool-cases, inl, inr,
}
use proxy_scope.Prelude.Text.{Bytes}
use proxy_scope.Capture.Packet.{
  fault, length_mismatch, ◌>>◌, Parsed, Result, ok, unparseable, at, clip, parse_packet, parse_ipv4,
  parse_ipv6,
}
use proxy_scope.Capture.Packet.Buffer.{range, length-range}
use proxy_scope.Capture.Packet.Parse.{
  word, Ipv4Fits, ihl_of, net4, net6, body4, body6, guards4, parse_ipv4_view, parse_ipv6_fits,
  parse_ipv4_short, parse_ipv6_short, byte-at, clip-le,
}
use proxy_scope.Capture.Packet.Layout.{TransportAt, at-start, TransportAt-parse, parse-TransportAt}

abbrev pub total4 : Bytes → ℕ
total4 pkt = clip (word pkt 2) pkt

abbrev pub total6 : Bytes → ℕ
total6 pkt = clip (40 + word pkt 4) pkt

abbrev pub Frame4 : Bytes → Parsed → Type 0
Frame4 pkt p =
    (at pkt 0 / 16 ≡ 4)
    × (20 ≤ length pkt)
    × Ipv4Fits pkt
    × TransportAt pkt (total4 pkt) (ihl_of pkt) (at pkt 9) (net4 pkt) p

abbrev pub Frame6 : Bytes → Parsed → Type 0
Frame6 pkt p =
    (at pkt 0 / 16 ≡ 6)
    × (40 ≤ length pkt)
    × TransportAt pkt (total6 pkt) 40 (at pkt 6) (net6 pkt) p

abbrev pub Frame : Bytes → Parsed → Type 0
Frame pkt p = Frame4 pkt p ⊎ Frame6 pkt p

length-body : (n : ℕ) (pkt : Bytes) → length (range pkt 0 (clip n pkt)) ≡ clip n pkt
length-body n pkt = omega (arith, length-range pkt 0 (clip n pkt) (clip-le n pkt).0)

guards4-fits : (pkt : Bytes) → guards4 pkt ≡ ok tt → Ipv4Fits pkt
guards4-fits pkt e = ground arith

fits-guards4 : (pkt : Bytes) → Ipv4Fits pkt → guards4 pkt ≡ ok tt
fits-guards4 pkt f = ground arith

>>-eq-ok :
    (m : Result (Unit {0})) (k : Result Parsed) (p : Parsed)
    → (m >> k) ≡ ok p
    → (m ≡ ok tt) × (k ≡ ok p)
>>-eq-ok (ok tt) k p e = (refl, e)
>>-eq-ok unparseable k p e = absurd (ground arith)
>>-eq-ok length_mismatch k p e = absurd (ground arith)
>>-eq-ok fault k p e = absurd (ground arith)

parse_ipv4-Frame :
    (pkt : Bytes) (p : Parsed)
    → at pkt 0 / 16 ≡ 4
    → 20 ≤ length pkt
    → parse_ipv4 pkt ≡ ok p
    → Frame4 pkt p
parse_ipv4-Frame pkt p v l e =
    let parts = >>-eq-ok (guards4 pkt) _ p (sym (parse_ipv4_view pkt l) ∙ e) in
    (
      v,
      l,
      guards4-fits pkt parts.0,
      parse-TransportAt pkt (body4 pkt) (total4 pkt) (ihl_of pkt) (net4 pkt) p
          (length-body (word pkt 2) pkt) (at-start pkt (total4 pkt)) (at pkt 9) parts.1,
    )

Frame-parse_ipv4 : (pkt : Bytes) (p : Parsed) → Frame4 pkt p → parse_ipv4 pkt ≡ ok p
Frame-parse_ipv4 pkt p (v, l, f, t) =
    parse_ipv4_view pkt l
    ∙ rw (fits-guards4 pkt f) (
        TransportAt-parse pkt (body4 pkt) (total4 pkt) (ihl_of pkt) (net4 pkt) p
          (length-body (word pkt 2) pkt) (at-start pkt (total4 pkt)) (at pkt 9) t)

parse_ipv6-Frame :
    (pkt : Bytes) (p : Parsed)
    → at pkt 0 / 16 ≡ 6
    → 40 ≤ length pkt
    → parse_ipv6 pkt ≡ ok p
    → Frame6 pkt p
parse_ipv6-Frame pkt p v l e = (
  v,
  l,
  parse-TransportAt pkt (body6 pkt) (total6 pkt) 40 (net6 pkt) p (length-body (40 + word pkt 4) pkt)
      (at-start pkt (total6 pkt)) (at pkt 6) (sym (parse_ipv6_fits pkt l) ∙ e),
)

Frame-parse_ipv6 : (pkt : Bytes) (p : Parsed) → Frame6 pkt p → parse_ipv6 pkt ≡ ok p
Frame-parse_ipv6 pkt p (v, l, t) =
    parse_ipv6_fits pkt l
    ∙ TransportAt-parse pkt (body6 pkt) (total6 pkt) 40 (net6 pkt) p
        (length-body (40 + word pkt 4) pkt) (at-start pkt (total6 pkt)) (at pkt 6) t

pub parse_packet-Frame : (pkt : Bytes) (p : Parsed) → parse_packet pkt ≡ ok p → Frame pkt p
unfolding parse_packet
parse_packet-Frame pkt p e = elim (Bool-cases (ltb (length pkt) 1)) [
  | inl a ↦ absurd (ground arith)
  | inr a ↦ elim (Bool-cases (at pkt 0 / 16 == 4)) [
    | inl b ↦ elim (Bool-cases (ltb (length pkt) 20)) [
      | inl c ↦ absurd (ground (arith, byte-at pkt 0, parse_ipv4_short pkt))
      | inr c ↦
          inl (parse_ipv4-Frame pkt p (ground arith) (ground arith) (ground (arith, byte-at pkt 0)))
    ]
    | inr b ↦ elim (Bool-cases (at pkt 0 / 16 == 6)) [
      | inl d ↦ elim (Bool-cases (ltb (length pkt) 40)) [
        | inl c ↦ absurd (ground (arith, byte-at pkt 0, parse_ipv6_short pkt))
        | inr c ↦
            inr
              (parse_ipv6-Frame pkt p (ground arith) (ground arith) (ground (arith, byte-at pkt 0)))
      ]
      | inr d ↦ absurd (ground (arith, byte-at pkt 0))
    ]
  ]
]

pub Frame-parse_packet : (pkt : Bytes) (p : Parsed) → Frame pkt p → parse_packet pkt ≡ ok p
unfolding parse_packet
Frame-parse_packet pkt p (inl f) = ground (arith, f.0, f.1, byte-at pkt 0, Frame-parse_ipv4 pkt p f)
Frame-parse_packet pkt p (inr f) = ground (arith, f.0, f.1, byte-at pkt 0, Frame-parse_ipv6 pkt p f)
