-- ===== src/Capture/Packet/Replace.antt =====
-- Replacing the payload of a parsed packet: what the packet is afterwards.
use proxy_scope.Prelude.{
  sym, length-append, ◌∙◌, ap, ◌-◌, ◌++◌, ◌≢◌, ◌<◌, arith, ◌≤◌, ◌+◌, ℕ, ◌≡◌, length, inl, inr,
}
use proxy_scope.Prelude.Text.{Bytes}
use proxy_scope.Capture.Packet.{
  relay_tcp, replace_payload, replace_tcp, slice, Parsed, Network, ok, at, parse_packet, payload,
}
use proxy_scope.Capture.Packet.Buffer.{
  range_is, at-range, at-append_right, at-append_left, length-range, range, range_ext,
}
use proxy_scope.Capture.Packet.Parse.{word, ihl_of, net4, net6, slice-range, clip-le}
use proxy_scope.Capture.Packet.Layout.{TransportAt}
use proxy_scope.Capture.Packet.Frame.{
  Frame-parse_packet, Frame, Frame4, Frame6, total4, total6, parse_packet-Frame,
}

pub TransportAt-bounds :
    (pkt : Bytes) (total off protocol : ℕ) (n : Network) (p : Parsed)
    → TransportAt pkt total off protocol n p
    → (off + 8 ≤ p.payload_off) × (p.payload_off + p.payload_len ≡ total) × (p.ipv6 ≡ n.ipv6)
TransportAt-bounds pkt total off protocol n p (inl (e, (a, b, c, f))) = ground arith
TransportAt-bounds pkt total off protocol n p (inr (e, (a, f))) = ground arith

pub payload_bounds :
    (pkt : Bytes) (p : Parsed)
    → parse_packet pkt ≡ ok p
    → (28 ≤ p.payload_off)
      × (p.payload_off + p.payload_len ≤ length pkt)
      × (payload p pkt ≡ ok (range pkt p.payload_off (p.payload_off + p.payload_len)))
unfolding payload
payload_bounds pkt p e =
    (b.0, b.1, slice-range pkt p.payload_off (p.payload_off + p.payload_len) (omega arith) b.1)
  where
    bounds : Frame pkt p → (28 ≤ p.payload_off) × (p.payload_off + p.payload_len ≤ length pkt)
    bounds (inl (v, l, f, t)) = ground (
      arith,
      TransportAt-bounds pkt (total4 pkt) (ihl_of pkt) (at pkt 9) (net4 pkt) p t,
      clip-le (word pkt 2) pkt,
    )
    bounds (inr (v, l, t)) = ground (
      arith,
      TransportAt-bounds pkt (total6 pkt) 40 (at pkt 6) (net6 pkt) p t,
      clip-le (40 + word pkt 4) pkt,
    )

    b : (28 ≤ p.payload_off) × (p.payload_off + p.payload_len ≤ length pkt)
    b = bounds (parse_packet-Frame pkt p e)

-- A packet with the headers of `pkt`, but for the lengths in them, and another payload.
module _ (pkt out : Bytes) (p : Parsed) (n : ℕ) (room : p.payload_off + n ≤ length out)
    (same : (i : ℕ)
      → i < p.payload_off
      → i ≢ 2
      → i ≢ 3
      → i ≢ 4
      → i ≢ 5
      → i + 4 ≢ p.payload_off
      → i + 3 ≢ p.payload_off
      → at out i ≡ at pkt i) where
  TransportAt-moves :
      (total off protocol : ℕ) (net : Network)
      → 20 ≤ off
      → TransportAt pkt total off protocol net p
      → TransportAt out (p.payload_off + n) off protocol net (record p { payload_len = n })
  TransportAt-moves total off protocol net h (inl (e, (a, b, c, f))) = inl (
    e,
    ground (
      arith,
      same off,
      same (off + 1),
      same (off + 2),
      same (off + 2 + 1),
      same (off + 12),
      same (off + 13),
    ),
  )
  TransportAt-moves total off protocol net h (inr (e, (a, f))) =
      inr (e, ground (arith, same off, same (off + 1), same (off + 2), same (off + 2 + 1)))

  range-moves :
      (a b : ℕ) → 6 ≤ a → b ≤ length pkt → b + 8 ≤ p.payload_off → range out a b ≡ range pkt a b
  range-moves a b h k l = range_ext out pkt a b (omega arith) k λ i x y.
      same i (omega arith) (omega arith) (omega arith) (omega arith) (omega arith) (omega arith)
        (omega arith)

  start : (i : ℕ) → i + 8 ≤ p.payload_off → i ≢ 2 → i ≢ 3 → i ≢ 4 → i ≢ 5 → at out i ≡ at pkt i
  start i h a b c d = same i (omega arith) a b c d (omega arith) (omega arith)

  pub Frame4-moves :
      total4 out ≡ p.payload_off + n → Frame4 pkt p → Frame4 out (record p { payload_len = n })
  Frame4-moves t (v, l, (f0, f1, f2, f3), q) =
      let b = TransportAt-bounds pkt (total4 pkt) (ihl_of pkt) (at pkt 9) (net4 pkt) p q in
      rw
        (
          t,
          start 0 (omega arith) (omega arith) (omega arith) (omega arith) (omega arith),
          start 6 (omega arith) (omega arith) (omega arith) (omega arith) (omega arith),
          start 7 (omega arith) (omega arith) (omega arith) (omega arith) (omega arith),
          start 9 (omega arith) (omega arith) (omega arith) (omega arith) (omega arith),
          range-moves 12 16 (omega arith) (omega arith) (omega arith),
          range-moves 16 20 (omega arith) (omega arith) (omega arith),
        )
        (
          v,
          omega arith,
          (f0, omega arith, f2, f3),
          TransportAt-moves (total4 pkt) (ihl_of pkt) (at pkt 9) (net4 pkt) f0 q,
        )

  pub Frame6-moves :
      total6 out ≡ p.payload_off + n → Frame6 pkt p → Frame6 out (record p { payload_len = n })
  Frame6-moves t (v, l, q) =
      let b = TransportAt-bounds pkt (total6 pkt) 40 (at pkt 6) (net6 pkt) p q in
      rw
        (
          t,
          start 0 (omega arith) (omega arith) (omega arith) (omega arith) (omega arith),
          start 6 (omega arith) (omega arith) (omega arith) (omega arith) (omega arith),
          range-moves 8 24 (omega arith) (omega arith) (omega arith),
          range-moves 24 40 (omega arith) (omega arith) (omega arith),
        )
        (v, omega arith, TransportAt-moves (total6 pkt) 40 (at pkt 6) (net6 pkt) (omega arith) q)

-- The packet around a new payload.
abbrev splice : Bytes → Bytes → ℕ → ℕ → Bytes
splice pkt new off len = range pkt 0 off ++ (new ++ range pkt (off + len) (length pkt))

module _ (pkt new : Bytes) (off len : ℕ) (fits : off + len ≤ length pkt) where
  length-head : length (range pkt 0 off) ≡ off
  length-head = omega (arith, length-range pkt 0 off (omega arith))

  length-splice : length (splice pkt new off len) ≡ off + (length new + (length pkt - (off + len)))
  length-splice = omega (
    arith,
    length-append (range pkt 0 off) (new ++ range pkt (off + len) (length pkt)),
    length-append new (range pkt (off + len) (length pkt)),
    length-head,
    length-range pkt (off + len) (length pkt) (omega arith),
  )

  at-splice_head : (i : ℕ) → i < off → at (splice pkt new off len) i ≡ at pkt i
  at-splice_head i h =
      at-append_left (range pkt 0 off) _ i (omega (arith, length-head))
      ∙ at-range pkt 0 off i (omega arith)
      ∙ ap (at pkt) (omega arith)

  at-splice_fresh : (i : ℕ) → i < length new → at (splice pkt new off len) (off + i) ≡ at new i
  at-splice_fresh i h =
      ap (λ k. at (splice pkt new off len) (k + i)) (sym length-head)
      ∙ at-append_right (range pkt 0 off) _ i
      ∙ at-append_left new _ i h

  at-splice_rest :
      (i : ℕ)
      → i + off + len < length pkt
      → at (splice pkt new off len) (off + (length new + i)) ≡ at pkt (off + len + i)
  at-splice_rest i h =
      ap (λ k. at (splice pkt new off len) (k + (length new + i))) (sym length-head)
      ∙ at-append_right (range pkt 0 off) _ (length new + i)
      ∙ at-append_right new _ i
      ∙ at-range pkt (off + len) (length pkt) i (omega arith)

  slices :
      ((slice pkt 0 off ≡ ok (range pkt 0 off))
        × (slice pkt off (off + len) ≡ ok (range pkt off (off + len))))
      × (slice pkt (off + len) (length pkt) ≡ ok (range pkt (off + len) (length pkt)))
  slices = (
    (
      slice-range pkt 0 off (omega arith) (omega arith),
      slice-range pkt off (off + len) (omega arith) fits,
    ),
    slice-range pkt (off + len) (length pkt) fits (omega arith),
  )

replace_tcp-splice :
    (pkt new : Bytes) (p : Parsed)
    → p.protocol ≡ relay_tcp
    → length new ≡ p.payload_len
    → p.payload_off + p.payload_len ≤ length pkt
    → replace_payload pkt p new ≡ ok (splice pkt new p.payload_off p.payload_len)
unfolding replace_payload replace_tcp
replace_tcp-splice pkt new p t l fits =
    ground (arith, slices pkt new p.payload_off p.payload_len fits)

tcp_parses :
    (pkt out : Bytes) (p : Parsed)
    → length out ≡ length pkt
    → p.payload_off + p.payload_len ≤ length pkt
    → 28 ≤ p.payload_off
    → ((i : ℕ) → i < p.payload_off → at out i ≡ at pkt i)
    → Frame pkt p
    → parse_packet out ≡ ok p
tcp_parses pkt out p size fits far same (inl (v, l, f, q)) = Frame-parse_packet out p (
    inl (
      Frame4-moves pkt out p p.payload_len (omega arith) (λ i h a b c d x y. same i h) tot
        (v, l, f, q)))
  where
    tot : total4 out ≡ p.payload_off + p.payload_len
    tot =
        rw (size, same 2 (omega arith), same 3 (omega arith))
          (sym (TransportAt-bounds pkt (total4 pkt) (ihl_of pkt) (at pkt 9) (net4 pkt) p q).1)
tcp_parses pkt out p size fits far same (inr (v, l, q)) = Frame-parse_packet out p (
    inr (
      Frame6-moves pkt out p p.payload_len (omega arith) (λ i h a b c d x y. same i h) tot
        (v, l, q)))
  where
    tot : total6 out ≡ p.payload_off + p.payload_len
    tot =
        rw (size, same 4 (omega arith), same 5 (omega arith))
          (sym (TransportAt-bounds pkt (total6 pkt) 40 (at pkt 6) (net6 pkt) p q).1)

-- A TCP payload of the same length is exchanged in place: the packet parses as before, its payload
-- is the new one, and every byte outside of the payload stays.
pub tcp_replaces :
    (pkt : Bytes) (p : Parsed) (new : Bytes)
    → parse_packet pkt ≡ ok p
    → p.protocol ≡ relay_tcp
    → length new ≡ p.payload_len
    → (out : Bytes) × (replace_payload pkt p new ≡ ok out)
      × (parse_packet out ≡ ok p)
      × (payload p out ≡ ok new)
      × (length out ≡ length pkt)
      × ((i : ℕ) → i < p.payload_off → at out i ≡ at pkt i)
      × ((i : ℕ)
          → p.payload_off + p.payload_len + i < length pkt
          → at out (p.payload_off + p.payload_len + i) ≡ at pkt (p.payload_off + p.payload_len + i))
unfolding payload
tcp_replaces pkt p new e t l =
    let b = payload_bounds pkt p e in
    let off = p.payload_off in
    let len = p.payload_len in
    let out = splice pkt new off len in
    let size : length out ≡ length pkt = omega (arith, length-splice pkt new off len b.1) in
    let head = at-splice_head pkt new off len b.1 in
    (
      out,
      replace_tcp-splice pkt new p t l b.1,
      tcp_parses pkt out p size b.1 b.0 head (parse_packet-Frame pkt p e),
      slice-range out off (off + len) (omega arith) (omega arith)
          ∙ ap ok (
              ap (λ k. range out off (off + k)) (sym l)
              ∙ range_is out new off (omega arith) (at-splice_fresh pkt new off len b.1)),
      size,
      head,
      λ i h. ap (at out) (omega arith) ∙ at-splice_rest pkt new off len b.1 i (omega arith),
    )
