-- ===== src/Capture/Service/Fits.antt =====
-- What the sessions of the service have stored stays within the cap.
use proxy_scope.Chunk.{relay_down, relay_up}
use mathlib.Core.Option.{some, none}
use mathlib.Core.Bool.{true}
use proxy_scope.Prelude.{
  length-take, ◌-◌, map, take, ◌∙◌, inr, refl, leb, arith, inl, [], false, length, ◌==◌,
  Option-cases, ◌+◌, Bool-cases, Bool, ◌≤◌, ◌<◌, List, ◌≡◌, ℕ,
}
use proxy_scope.Prelude.Word.{add64_small, int64_limit}
use proxy_scope.Capture.Packet.{Parsed}
use proxy_scope.Capture.Session.{fitting, store_chunk, track_bytes, tally_of, CapSession, keep_row}
use proxy_scope.Capture.Session.Prefix.{fitting_whole, fitting_part}
use proxy_scope.Capture.Service.{
  remote_addr, local_addr, new_session, flow_key, sub64, find, ◌∷◌, split_idle, close_session,
  shutdown_common, open_session, update, Bytes, session_for, Direction, close_all, sweep_idle,
  Service, Event, sweeps, shuts_down, happens, account,
}

-- The stored bytes of a session are within the cap.
abbrev FitsSession : ℕ → CapSession → Type 0
FitsSession max sess = (sess.up.captured ≤ max) × (sess.down.captured ≤ max)

abbrev pub Fits : Service → Type 0
Fits s = (s.max_capture < int64_limit) × ((ptr : ℕ) → FitsSession s.max_capture (s.heap ptr))

module _ (max : ℕ) (small : max < int64_limit) where
  fitting-some :
      (captured : ℕ) (p : Bytes)
      → captured ≤ max
      → captured + length p < int64_limit
      → (o : Bytes × Bool) × (fitting max captured p ≡ some o) × (captured + length o.0 ≤ max)
  fitting-some captured p h k = elim (Bool-cases (leb (captured + length p) max)) [
    | inl e ↦ ((p, false), fitting_whole max small captured p (ground arith), ground arith)
    | inr e ↦ (
      (take (max - captured) p, true),
      fitting_part max small captured p h (ground arith) k,
      ground (arith, length-take (max - captured) p),
    )
  ]

  keep_row-fits :
      (stored : Bytes) (capped : Bool) (dir : Direction) (p : Bytes) (edited : Bool)
      (sess : CapSession)
      → FitsSession max sess
      → (tally_of dir sess).captured + length stored ≤ max
      → FitsSession max (keep_row stored capped dir p edited sess)
  keep_row-fits stored capped relay_up p edited sess f h =
      ground (arith, add64_small sess.up.captured (length stored))
  keep_row-fits stored capped relay_down p edited sess f h =
      ground (arith, add64_small sess.down.captured (length stored))

  tally-fits :
      (dir : Direction) (sess : CapSession)
      → FitsSession max sess
      → (tally_of dir sess).captured ≤ max
  tally-fits relay_up sess f = f.0
  tally-fits relay_down sess f = f.1

  store_chunk-fits :
      (dir : Direction) (p : Bytes) (edited : Bool) (sess : CapSession)
      → FitsSession max sess
      → max + length p < int64_limit
      → (sess' : CapSession) × (store_chunk max dir p edited sess ≡ some sess')
        × FitsSession max sess'
  unfolding store_chunk
  store_chunk-fits dir p edited sess f h = elim (Bool-cases (tally_of dir sess).cap_reached) [
    | inl r ↦ (sess, ground arith, f)
    | inr r ↦
        let k = tally-fits dir sess f in
        let (o, e, b) = fitting-some (tally_of dir sess).captured p k (omega arith) in
        (
          keep_row o.0 o.1 dir p edited sess,
          rw (r, e) refl,
          keep_row-fits o.0 o.1 dir p edited sess f b,
        )
  ]

track-fits :
    (max : ℕ) (dir : Direction) (n now : ℕ) (sess : CapSession)
    → FitsSession max sess
    → FitsSession max (track_bytes dir n now sess)
unfolding track_bytes
track-fits max relay_up n now sess f = f
track-fits max relay_down n now sess f = f

update-fits :
    (max ptr : ℕ) (heap : ℕ → CapSession) (sess : CapSession)
    → ((i : ℕ) → FitsSession max (heap i))
    → FitsSession max sess
    → (i : ℕ) → FitsSession max (update heap ptr sess i)
update-fits max ptr heap sess f g i = elim (Bool-cases (ptr == i)) [
  | inl e ↦ rw e g
  | inr e ↦ rw e (f i)
]

pub account-Fits :
    (ptr : ℕ) (dir : Direction) (p : Bytes) (edited : Bool) (n now : ℕ) (s : Service)
    → Fits s
    → s.max_capture + length p < int64_limit
    → (s' : Service) × (account ptr dir p edited n now s ≡ some s') × Fits s'
unfolding account
account-Fits ptr dir p edited n now s f h =
    let (sess, e, g) = store_chunk-fits s.max_capture f.0 dir p edited (s.heap ptr) (f.1 ptr) h in
    (
      record s { heap = update s.heap ptr (track_bytes dir n now sess) },
      rw (e, account) refl,
      (
        f.0,
        update-fits s.max_capture ptr s.heap (track_bytes dir n now sess) f.1
            (track-fits s.max_capture dir n now sess g),
      ),
    )

-- The events change neither what is stored nor the cap.
close_all_keeps :
    (now : ℕ) (ptrs : List ℕ) (s : Service)
    → ((close_all now ptrs s).heap ≡ s.heap) × ((close_all now ptrs s).max_capture ≡ s.max_capture)
unfolding close_all close_session
close_all_keeps now [] s = (refl, refl)
close_all_keeps now (ptr ∷ ptrs) s = close_all_keeps now ptrs (close_session now ptr s)

pub happens_keeps :
    (es : List Event) (s : Service)
    → ((happens es s).heap ≡ s.heap) × ((happens es s).max_capture ≡ s.max_capture)
unfolding happens sweep_idle shutdown_common
happens_keeps [] s = (refl, refl)
happens_keeps (sweeps now ∷ es) s =
    let r = split_idle (sub64 now s.idle_timeout) s.heap s.sessions in
    let c = close_all_keeps now r.1 (record s { sessions = r.0 }) in
    let h = happens_keeps es (sweep_idle now s) in (h.0 ∙ c.0, h.1 ∙ c.1)
happens_keeps (shuts_down now ∷ es) s =
    let c = close_all_keeps now (map (λ e. e.1) s.sessions) (record s { sessions = [] }) in
    let h = happens_keeps es (shutdown_common now s) in (h.0 ∙ c.0, h.1 ∙ c.1)

pub happens-Fits : (es : List Event) (s : Service) → Fits s → Fits (happens es s)
happens-Fits es s f = let h = happens_keeps es s in rw (h.0, h.1) f

pub session_for_found :
    (ip_string : Bytes → Bytes) (p : Parsed) (outbound : Bool) (id now ptr : ℕ) (s : Service)
    → find (flow_key ip_string p) s.sessions ≡ some ptr
    → session_for ip_string p outbound id now s ≡ (s, ptr)
unfolding session_for
session_for_found ip_string p outbound id now ptr s e = rw (e, session_for) refl

pub session_for_new :
    (ip_string : Bytes → Bytes) (p : Parsed) (outbound : Bool) (id now : ℕ) (s : Service)
    → find (flow_key ip_string p) s.sessions ≡ none
    → session_for ip_string p outbound id now s ≡ (
      open_session
          (flow_key ip_string p)
          (local_addr ip_string p outbound)
          (remote_addr ip_string p outbound)
          p.protocol
          id
          now
          s,
      s.count,
    )
unfolding session_for
session_for_new ip_string p outbound id now s e = rw (e, session_for) refl

pub session_for-Fits :
    (ip_string : Bytes → Bytes) (p : Parsed) (outbound : Bool) (id now : ℕ) (s : Service)
    → Fits s
    → Fits (session_for ip_string p outbound id now s).0
      × ((session_for ip_string p outbound id now s).0.max_capture ≡ s.max_capture)
unfolding open_session
session_for-Fits ip_string p outbound id now s f =
    elim (Option-cases (find (flow_key ip_string p) s.sessions)) [
      | inl e ↦ rw (session_for_new ip_string p outbound id now s e) (
        (
          f.0,
          update-fits s.max_capture s.count s.heap
              (new_session id (flow_key ip_string p) (local_addr ip_string p outbound)
                (remote_addr ip_string p outbound) p.protocol now)
              f.1 (omega arith, omega arith),
        ),
        refl,
      )
      | inr (ptr, e) ↦ rw (session_for_found ip_string p outbound id now ptr s e) (f, refl)
    ]
