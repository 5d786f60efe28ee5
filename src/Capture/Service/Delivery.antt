-- ===== src/Capture/Service/Delivery.antt =====
-- What becomes of a captured packet.
use proxy_scope.Capture.Service.Counts.{Counts, account-Counts}
use proxy_scope.Capture.Session.{CapSession}
use mathlib.Core.Path.{subst}
use proxy_scope.Capture.Service.Fits.{
  happens-Fits, happens_keeps, session_for-Fits, account-Fits, Fits,
}
use proxy_scope.Capture.Packet.Datagram.{udp_replaces}
use proxy_scope.Capture.Packet.Buffer.{length-range}
use proxy_scope.Capture.Packet.Replace.{tcp_replaces, payload_bounds}
use proxy_scope.Capture.Hold.Pause.{packet_finish_forwards, wanted}
use proxy_scope.Chunk.{relay_udp, relay_tcp, relay_down, relay_up}
use mathlib.Core.Option.{some, none}
use mathlib.Core.Bool.{true}
use proxy_scope.Prelude.{
  ap, sym, ◌↔◌, ◌∙◌, inr, refl, if◌then◌else◌, arith, inl, [], false, length, ◌+◌, Bool-cases, Bool,
  ◌<◌, Option, ◌≡◌, ℕ,
}
use proxy_scope.Prelude.Word.{int64_limit}
use proxy_scope.Capture.Hold.{finish, chunk_mismatch}
use proxy_scope.Capture.Packet.{ok, Parsed, parse_packet, payload, replace_payload}
use proxy_scope.Capture.Service.{
  Arrival, process_packet, verdict_drop, Chunk, Outcome, verdict_forward, Resolution, Bytes,
  session_for, Direction, Protocol, Service, happens, complete, hold,
}

-- The payload after the hold, and whether the packet is dropped.
abbrev pub wanted_bytes : Bytes → Option Resolution → Bytes
wanted_bytes old none = old
wanted_bytes old (some res) =
    if res.drop then old else (wanted (record { bytes = old }) res.chunk).bytes

abbrev pub drops : Option Resolution → Bool
drops none = false
drops (some res) = res.drop

-- What the queue's Resolve has checked.
abbrev pub Accepted : Protocol → Bytes → Option Resolution → Type 0
Accepted protocol old none = Unit
Accepted protocol old (some res) =
    chunk_mismatch protocol res.chunk (record { bytes = old }) ≡ false

-- The session of a packet, as it is found or opened.
abbrev pub opened_for : (Bytes → Bytes) → Parsed → Arrival → Service → CapSession
opened_for ip_string p a s =
    let r = session_for ip_string p a.outbound a.id a.began s in r.0.heap r.1

-- A packet that parses as `p` does, but with this payload.
abbrev pub Carries : Parsed → Bytes → Bytes → Type 0
Carries p new out =
    (parse_packet out ≡ ok (record p { payload_len = length new }))
    × (payload (record p { payload_len = length new }) out ≡ ok new)

module _ (pkt old : Bytes) (p : Parsed) (e : parse_packet pkt ≡ ok p)
    (l : payload p pkt ≡ ok old) where
  length-old : length old ≡ p.payload_len
  length-old =
      let b = payload_bounds pkt p e in
      ground (arith, length-range pkt p.payload_off (p.payload_off + p.payload_len))

  Carries-old : Carries p old pkt
  Carries-old = rw length-old (e, l)

  rewrites :
      (new : Bytes)
      → (p.protocol ≡ relay_tcp → length new ≡ length old)
      → (p.protocol ≡ relay_udp → p.payload_off + length new < 65536)
      → (out : Bytes) × (replace_payload pkt p new ≡ ok out) × Carries p new out
  rewrites new t u = go p.protocol refl
    where
      go :
          (r : Protocol)
          → p.protocol ≡ r
          → (out : Bytes) × (replace_payload pkt p new ≡ ok out) × Carries p new out
      go relay_tcp q =
          let k : length new ≡ p.payload_len = t q ∙ length-old in
          let r = tcp_replaces pkt p new e q k in
          let q : record p { payload_len = length new } ≡ p =
            ap (λ n. record p { payload_len = n }) k in
          (r.0, r.1, (r.2 ∙ ap ok (sym q), ap (λ z. payload z r.0) q ∙ r.3))
      go relay_udp q = let r = udp_replaces pkt p new e q (u q) in (r.0, r.1, (r.2, r.3))

  complete-forwards :
      (ptr : ℕ) (dir : Direction) (now : ℕ) (chunk : Chunk) (oc : Outcome) (s : Service)
      → oc.verdict ≡ verdict_forward
      → ((oc.edited ≡ false) ↔ (chunk.bytes ≡ old))
      → Fits s
      → s.max_capture + length chunk.bytes < int64_limit
      → (p.protocol ≡ relay_tcp → length chunk.bytes ≡ length old)
      → (p.protocol ≡ relay_udp → p.payload_off + length chunk.bytes < 65536)
      → (s' : Service) × (out : Bytes) × (complete pkt p old ptr dir now (chunk, oc) s
          ≡ some (s', out, false))
        × Carries p chunk.bytes out
        × Fits s'
  unfolding complete
  complete-forwards ptr dir now chunk oc s v w f h t u = elim (Bool-cases oc.edited) [
    | inl d ↦
        let (out, r, c) = rewrites chunk.bytes t u in
        let (s', a, g) = account-Fits ptr dir chunk.bytes true (length chunk.bytes) now s f h in
        (s', out, rw (v, d, r, a, complete) refl, c, g)
    | inr d ↦
        let (s', a, g) = account-Fits ptr dir chunk.bytes false (length chunk.bytes) now s f h in
        (s', pkt, rw (v, d, a, complete) refl, rw (w.0 d) Carries-old, g)
  ]

wanted_kept :
    (old : Bytes) (res : Resolution)
    → res.drop ≡ false
    → wanted_bytes old (some res) ≡ (wanted (record { bytes = old }) res.chunk).bytes
wanted_kept old res d = rw d refl

hold-forwards :
    (old : Bytes) (res : Option Resolution)
    → drops res ≡ false
    → ((hold (record { bytes = old }) res).1.verdict ≡ verdict_forward)
      × ((hold (record { bytes = old }) res).0.bytes ≡ wanted_bytes old res)
      × (((hold (record { bytes = old }) res).1.edited ≡ false)
          ↔ ((hold (record { bytes = old }) res).0.bytes ≡ old))
unfolding hold
hold-forwards old none d = (refl, refl, ((λ x. refl), (λ x. refl)))
hold-forwards old (some res) d =
    let (v, b, w) = packet_finish_forwards (record { bytes = old }) res d in
    (v, b ∙ sym (wanted_kept old res d), ((λ x. b ∙ w.0 x), (λ x. w.1 (sym b ∙ x))))

hold-drops :
    (old : Bytes) (res : Option Resolution)
    → drops res ≡ true
    → ((hold (record { bytes = old }) res).1.verdict ≡ verdict_drop)
      × ((hold (record { bytes = old }) res).0.bytes ≡ old)
unfolding hold finish
hold-drops old none d = absurd (ground arith)
hold-drops old (some res) d = (rw (d, finish) refl, rw (d, finish) refl)

Accepted-length :
    (protocol : Protocol) (old : Bytes) (res : Option Resolution)
    → Accepted protocol old res
    → protocol ≡ relay_tcp
    → length (wanted_bytes old res) ≡ length old
unfolding chunk_mismatch
Accepted-length protocol old none a t = refl
Accepted-length protocol old (some res) a t = go res.drop res.chunk a
  where
    go :
        (d : Bool) (c : Option Chunk)
        → chunk_mismatch protocol c (record { bytes = old }) ≡ false
        → length (if d then old else (wanted (record { bytes = old }) c).bytes) ≡ length old
    go true c h = refl
    go false none h = refl
    go false (some c) h =
        ground (arith, ap (λ r. chunk_mismatch r (some c) (record { bytes = old })) (sym t) ∙ h)

-- A packet that is parsed and not dropped is sent on: what is sent parses as the packet does, but with the bytes that the
-- user asked for as its payload, or else with its own. This holds whatever the sweep and the shutdown do during the hold. The
-- resolution has passed the queue's check, the stored bytes of each session are within the cap, the new
-- payload and the cap together are below 2^63, and a UDP packet stays below 65536 bytes.
pub process_packet_forwards :
    (ip_string : Bytes → Bytes) (a : Arrival) (s : Service) (p : Parsed) (old : Bytes)
    → parse_packet a.pkt ≡ ok p
    → payload p a.pkt ≡ ok old
    → drops a.resolution ≡ false
    → Accepted p.protocol old a.resolution
    → Fits s
    → s.max_capture + length (wanted_bytes old a.resolution) < int64_limit
    → (p.protocol ≡ relay_udp → p.payload_off + length (wanted_bytes old a.resolution) < 65536)
    → (s' : Service) × (out : Bytes) × (process_packet ip_string a s ≡ some (s', out, false))
      × Carries p (wanted_bytes old a.resolution) out
      × Fits s'
unfolding process_packet
process_packet_forwards ip_string a s p old e l d t f h u =
    let dir = if a.outbound then relay_up else relay_down in
    let r = session_for ip_string p a.outbound a.id a.began s in
    let q = session_for-Fits ip_string p a.outbound a.id a.began s f in
    let s1 = happens a.events r.0 in
    let m : s1.max_capture ≡ s.max_capture = (happens_keeps a.events r.0).1 ∙ q.1 in
    let (v, b, w) = hold-forwards old a.resolution d in
    let o = hold (record { bytes = old }) a.resolution in
    let (s', out, c, x, g) =
      complete-forwards a.pkt old p e l r.1 dir a.ended o.0 o.1 s1 v w
        (happens-Fits a.events r.0 q.0) (rw (m, b) h)
        (λ z. rw b (Accepted-length p.protocol old a.resolution t z)) (λ z. rw b (u z)) in
    (s', out, rw (e, l, process_packet) c, subst (λ n. Carries p n out) b x, g)

-- A packet whose hold ends in a drop is not sent on, and its payload is accounted for: the session of the packet, as
-- it was found or opened, has counted its bytes, has the time of the drop as its last activity, and has saved a row with
-- the part of the payload under the cap and its size, unless the cap was reached before. The stored bytes of each session
-- are within the cap, and the payload and the cap together are below 2^63.
pub process_packet_refused :
    (ip_string : Bytes → Bytes) (a : Arrival) (s : Service) (p : Parsed) (old : Bytes)
    → parse_packet a.pkt ≡ ok p
    → payload p a.pkt ≡ ok old
    → drops a.resolution ≡ true
    → Fits s
    → s.max_capture + length old < int64_limit
    → (s' : Service) × (process_packet ip_string a s ≡ some (s', [], true))
      × Fits s'
      × Counts s.max_capture
          (if a.outbound then relay_up else relay_down)
          old
          a.ended
          (opened_for ip_string p a s)
          (s'.heap (session_for ip_string p a.outbound a.id a.began s).1)
unfolding process_packet complete
process_packet_refused ip_string a s p old e l d f h =
    let dir = if a.outbound then relay_up else relay_down in
    let r = session_for ip_string p a.outbound a.id a.began s in
    let q = session_for-Fits ip_string p a.outbound a.id a.began s f in
    let s1 = happens a.events r.0 in
    let k = happens_keeps a.events r.0 in
    let m : s1.max_capture ≡ s.max_capture = k.1 ∙ q.1 in
    let (v, b) = hold-drops old a.resolution d in
    let (s', c, g) =
      account-Fits r.1 dir old false (length old) a.ended s1 (happens-Fits a.events r.0 q.0)
        (rw m h) in
    let n = account-Counts r.1 dir old a.ended s1 s' (happens-Fits a.events r.0 q.0) (rw m h) c in
    (
      s',
      rw (e, l, process_packet, complete, v, b, c) refl,
      g,
      subst (λ z. Counts z dir old a.ended (opened_for ip_string p a s) (s'.heap r.1)) m
          (subst (λ z. Counts s1.max_capture dir old a.ended (z r.1) (s'.heap r.1)) k.0 n),
    )
