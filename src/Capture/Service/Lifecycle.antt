-- ===== src/Capture/Service/Lifecycle.antt =====
-- Each session that was opened is either still in the table or was closed once.
use proxy_scope.Http.Message.{verdict_drop, Verdict}
use proxy_scope.Capture.Packet.{
  length_mismatch, unparseable, fault, replace_payload, payload, Result,
}
use mathlib.Core.Path.{subst}
use mathlib.Core.List.{map-append}
use proxy_scope.Prelude.{
  length, true, Option, inr, ap, ltb, ◌==◌, ◌∙◌, inl, Option-cases, suc, false, refl, ltb, some,
  ◌==◌, Bool, none, arith, map, ◌++◌, [], if◌then◌else◌, ◌∷◌, ◌+◌, List, ◌≡◌, ℕ,
}
use proxy_scope.Prelude.Text.{Bytes}
use proxy_scope.Capture.Flow.{flow_key}
use proxy_scope.Capture.Service.{
  relay_down, relay_up, verdict_forward, ok, Outcome, parse_packet, send_on, new_service, Chunk,
  store_chunk, sub64, Direction, CapSession, Parsed, Service, Event, Arrival, sweeps, shuts_down,
  happens, account, complete, hold, process_packet, session_for, find, close_all, split_idle,
  close_session, open_session, sweep_idle, shutdown_common,
}
use proxy_scope.Capture.Service.Fits.{session_for_found, session_for_new}

-- How often a session occurs.
abbrev pub times : ℕ → List ℕ → ℕ
times i [] = 0
times i (j ∷ js) = if i == j then suc (times i js) else times i js

abbrev pub open_pointers : Service → List ℕ
open_pointers s = map (λ e. e.1) s.sessions

abbrev pub closed_pointers : Service → List ℕ
closed_pointers s = map (λ e. e.0) s.closed

times-append : (i : ℕ) (js ks : List ℕ) → times i (js ++ ks) ≡ times i js + times i ks
times-append i [] ks = omega arith
times-append i (j ∷ js) ks = ground (arith, times-append i js ks)

-- Each session that was opened is in the table or was closed, and once in all.
abbrev pub Accounted : Service → Type 0
Accounted s =
    (i : ℕ)
    → times i (open_pointers s) + times i (closed_pointers s) ≡ (if ltb i s.count then 1 else 0)

closes-times :
    (i now ptr : ℕ) (s : Service)
    → times i (closed_pointers (close_session now ptr s))
      ≡ times i (closed_pointers s) + times i (ptr ∷ [])
unfolding close_session
closes-times i now ptr s =
    ap (times i) (map-append (λ e. e.0) s.closed _) ∙ times-append i (closed_pointers s) (ptr ∷ [])

close_all-times :
    (i now : ℕ) (ptrs : List ℕ) (s : Service)
    → times i (closed_pointers (close_all now ptrs s)) ≡ times i (closed_pointers s) + times i ptrs
unfolding close_all close_session
close_all-times i now [] s = omega arith
close_all-times i now (ptr ∷ ptrs) s =
    ground (arith, close_all-times i now ptrs (close_session now ptr s), closes-times i now ptr s)

close_all_rest :
    (now : ℕ) (ptrs : List ℕ) (s : Service)
    → ((close_all now ptrs s).sessions ≡ s.sessions) × ((close_all now ptrs s).count ≡ s.count)
unfolding close_all close_session
close_all_rest now [] s = (refl, refl)
close_all_rest now (ptr ∷ ptrs) s = close_all_rest now ptrs (close_session now ptr s)

split_idle-times :
    (i cutoff : ℕ) (heap : ℕ → CapSession) (sessions : List (Bytes × ℕ))
    → times i (map (λ e. e.1) (split_idle cutoff heap sessions).0)
        + times i (split_idle cutoff heap sessions).1
      ≡ times i (map (λ e. e.1) sessions)
unfolding split_idle
split_idle-times i cutoff heap [] = refl
split_idle-times i cutoff heap (x ∷ sessions) =
    ground (arith, split_idle-times i cutoff heap sessions)

evicts-Accounted :
    (now : ℕ) (ptrs : List ℕ) (s : Service)
    → ((i : ℕ)
        → times i (open_pointers s) + times i ptrs + times i (closed_pointers s)
          ≡ (if ltb i s.count then 1 else 0))
    → Accounted (close_all now ptrs s)
evicts-Accounted now ptrs s f i =
    let k = close_all_rest now ptrs s in
    rw (k.0, k.1) (omega (arith, f i, close_all-times i now ptrs s))

happens-Accounted : (es : List Event) (s : Service) → Accounted s → Accounted (happens es s)
unfolding happens sweep_idle shutdown_common
happens-Accounted [] s f = f
happens-Accounted (sweeps now ∷ es) s f =
    let r = split_idle (sub64 now s.idle_timeout) s.heap s.sessions in
    happens-Accounted es (sweep_idle now s) (
      evicts-Accounted now r.1 (record s { sessions = r.0 })
        (λ i. omega (arith, f i, split_idle-times i (sub64 now s.idle_timeout) s.heap s.sessions)))
happens-Accounted (shuts_down now ∷ es) s f =
    happens-Accounted es (shutdown_common now s) (
      evicts-Accounted now (open_pointers s) (record s { sessions = [] }) (λ i. omega (arith, f i)))

session_for-Accounted :
    (ip_string : Bytes → Bytes) (p : Parsed) (outbound : Bool) (id now : ℕ) (s : Service)
    → Accounted s
    → Accounted (session_for ip_string p outbound id now s).0
unfolding open_session
session_for-Accounted ip_string p outbound id now s f =
    elim (Option-cases (find (flow_key ip_string p) s.sessions)) [
      | inl e ↦
          rw (session_for_new ip_string p outbound id now s e) (λ i. ground (arith, f i, opens i))
      | inr (ptr, e) ↦ rw (session_for_found ip_string p outbound id now ptr s e) f
    ]
  where
    opens :
        (i : ℕ)
        → times i (map (λ e. e.1) (s.sessions ++ (flow_key ip_string p, s.count) ∷ []))
          ≡ times i (open_pointers s) + times i (s.count ∷ [])
    opens i =
        ap (times i) (map-append (λ e. e.1) s.sessions _)
        ∙ times-append i (open_pointers s) (s.count ∷ [])

-- What is sent on, and the service afterwards.
abbrev Leaves : Option (Service × Bytes × Bool) → Type 0
Leaves none = Unit {0}
Leaves (some (s, out, drop)) = Accounted s

account-Accounted :
    (ptr : ℕ) (dir : Direction) (p : Bytes) (edited : Bool) (n now : ℕ) (out : Bytes) (drop : Bool)
    (s : Service)
    → Accounted s
    → Leaves (send_on out drop (account ptr dir p edited n now s))
unfolding account
account-Accounted ptr dir p edited n now out drop s f =
    elim (Option-cases (store_chunk s.max_capture dir p edited (s.heap ptr))) [
      | inl q ↦ rw (q, account) tt
      | inr (sess, q) ↦ rw (q, account) f
    ]

complete-Accounted :
    (pkt old : Bytes) (p : Parsed) (ptr : ℕ) (dir : Direction) (now : ℕ) (chunk : Chunk)
    (oc : Outcome) (s : Service)
    → Accounted s
    → Leaves (complete pkt p old ptr dir now (chunk, oc) s)
unfolding complete
complete-Accounted pkt old p ptr dir now chunk oc s f = go oc.verdict refl
  where
    edits :
        oc.verdict ≡ verdict_forward
        → oc.edited ≡ true
        → (o : Result Bytes) → replace_payload pkt p chunk.bytes ≡ o
        → Leaves (complete pkt p old ptr dir now (chunk, oc) s)
    edits v e (ok out) r =
        rw (v, e, r, complete)
          (account-Accounted ptr dir chunk.bytes true (length chunk.bytes) now out false s f)
    edits v e fault r = rw (v, e, r, complete) tt
    edits v e unparseable r =
        rw (v, e, r, complete) (account-Accounted ptr dir old false p.payload_len now pkt false s f)
    edits v e length_mismatch r =
        rw (v, e, r, complete) (account-Accounted ptr dir old false p.payload_len now pkt false s f)

    forwards :
        oc.verdict ≡ verdict_forward
        → (b : Bool) → oc.edited ≡ b
        → Leaves (complete pkt p old ptr dir now (chunk, oc) s)
    forwards v true e = edits v e (replace_payload pkt p chunk.bytes) refl
    forwards v false e =
        rw (v, e, complete)
          (account-Accounted ptr dir chunk.bytes false (length chunk.bytes) now pkt false s f)

    go : (v : Verdict) → oc.verdict ≡ v → Leaves (complete pkt p old ptr dir now (chunk, oc) s)
    go verdict_drop v =
        rw (v, complete)
          (account-Accounted ptr dir chunk.bytes false (length chunk.bytes) now [] true s f)
    go verdict_forward v = forwards v oc.edited refl

process_packet-Accounted :
    (ip_string : Bytes → Bytes) (a : Arrival) (s : Service)
    → Accounted s
    → Leaves (process_packet ip_string a s)
unfolding process_packet
process_packet-Accounted ip_string a s f = go (parse_packet a.pkt) refl
  where
    parsed :
        (p : Parsed)
        → parse_packet a.pkt ≡ ok p
        → (o : Result Bytes) → payload p a.pkt ≡ o
        → Leaves (process_packet ip_string a s)
    parsed p e (ok old) l =
        let r = session_for ip_string p a.outbound a.id a.began s in
        let o = hold (record { bytes = old }) a.resolution in
        rw (e, l, process_packet)
          (complete-Accounted a.pkt old p r.1 (if a.outbound then relay_up else relay_down) a.ended
            o.0 o.1 (happens a.events r.0)
            (happens-Accounted a.events r.0
              (session_for-Accounted ip_string p a.outbound a.id a.began s f)))
    parsed p e fault l = rw (e, l, process_packet) tt
    parsed p e unparseable l = rw (e, l, process_packet) tt
    parsed p e length_mismatch l = rw (e, l, process_packet) tt

    go : (o : Result Parsed) → parse_packet a.pkt ≡ o → Leaves (process_packet ip_string a s)
    go (ok p) e = parsed p e (payload p a.pkt) refl
    go fault e = rw (e, process_packet) tt
    go unparseable e = rw (e, process_packet) f
    go length_mismatch e = rw (e, process_packet) f

-- Packets one after the other.
unfoldable pub run_all : (Bytes → Bytes) → List Arrival → Service → Option Service
unfolding process_packet
run_all ip_string [] s = some s
run_all ip_string (a ∷ arrivals) s = elim (process_packet ip_string a s) [
  | none ↦ none
  | some r ↦ run_all ip_string arrivals r.0
]

run_all-Accounted :
    (ip_string : Bytes → Bytes) (arrivals : List Arrival) (s s' : Service)
    → Accounted s
    → run_all ip_string arrivals s ≡ some s'
    → Accounted s'
unfolding run_all
run_all-Accounted ip_string [] s s' f e = let k : s ≡ s' = ground arith in subst Accounted k f
run_all-Accounted ip_string (a ∷ arrivals) s s' f e =
    go (process_packet ip_string a s) refl (process_packet-Accounted ip_string a s f)
      (λ t. run_all-Accounted ip_string arrivals t s')
  where
    go :
        (o : Option (Service × Bytes × Bool))
        → process_packet ip_string a s ≡ o
        → Leaves o
        → ((t : Service) → Accounted t → run_all ip_string arrivals t ≡ some s' → Accounted s')
        → Accounted s'
    go none q l rest = absurd (ground (arith, q))
    go (some (t, out, drop)) q l rest = rest t l (ground (arith, q))

-- However packets, sweeps and shutdowns follow each other, each session that was opened is in the
-- table or was closed, and once in all; after the shutdown each was closed once.
pub sessions_closed_once :
    (ip_string : Bytes → Bytes) (filter : Bytes) (max idle : ℕ) (arrivals : List Arrival)
    (s : Service) (es : List Event) (now : ℕ)
    → run_all ip_string arrivals (new_service filter max idle) ≡ some s
    → Accounted (happens es s)
      × ((i : ℕ)
          → times i (closed_pointers (shutdown_common now (happens es s)))
            ≡ (if ltb i (happens es s).count then 1 else 0))
unfolding new_service shutdown_common
sessions_closed_once ip_string filter max idle arrivals s es now e = (f, closes)
  where
    f : Accounted (happens es s)
    f =
        happens-Accounted es s (
          run_all-Accounted ip_string arrivals (new_service filter max idle) s (λ i. ground arith)
            e)

    closes :
        (i : ℕ)
        → times i (closed_pointers (shutdown_common now (happens es s)))
          ≡ (if ltb i (happens es s).count then 1 else 0)
    closes i = omega (
      arith,
      f i,
      close_all-times i now (open_pointers (happens es s))
          (record (happens es s) { sessions = [] }),
    )
