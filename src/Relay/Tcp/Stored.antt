-- ===== src/Relay/Tcp/Stored.antt =====
-- A relayed connection stores what a session of the system capture stores.
use proxy_scope.Prelude.Word.{int64_limit}
use proxy_scope.Capture.Session.Prefix.{stored_prefix, stored_bytes, traffic, store_all}
use proxy_scope.Prelude.{
  take, Bool-cases, inr, sym, ◌<◌, Option-cases, inl, false, ◌⊎◌, true, ltb, if◌then◌else◌, Bool,
  ◌∙◌, ◌∷◌, ap, refl, length, List, ◌++◌, none, some, Option, [], arith, ◌≡◌, ℕ,
}
use proxy_scope.Chunk.{Direction, relay_up, relay_down, Chunk, Outcome, relay_tcp}
use proxy_scope.Capture.Session.{CapSession, new_session, fitting}
use proxy_scope.Capture.Session
use proxy_scope.Relay.Tcp.{
  new_conn, has_returned, Bytes, pump, end_round, relay_chunk, count_bytes, pump_all, NetError,
  Round, relay_round, hold, Conn, Pump, pump_of, on_pump, stored_part, store_chunk, keep_chunk,
}

-- The connection as a session of the capture.
abbrev pub view : Conn → CapSession
view c = record (new_session 0 [] [] [] relay_tcp 0) {
  seq = c.seq;
  saved = c.saved;
  up = record { captured = c.up.captured; cap_reached = c.up.cap_reached };
  down = record { captured = c.down.captured; cap_reached = c.down.cap_reached };
}

abbrev pub view_of : Option Conn → Option CapSession
view_of none = none
view_of (some c) = some (view c)

keep_chunk-view :
    (max : ℕ) (dir : Direction) (h : Chunk × Outcome) (c : Conn)
    → view_of (keep_chunk max dir h c) ≡ Session.store_chunk max dir h.0.bytes h.1.edited (view c)
unfolding keep_chunk store_chunk stored_part Session.store_chunk fitting
keep_chunk-view max relay_up h c = ground arith
keep_chunk-view max relay_down h c = ground arith

on_pump-view :
    (dir : Direction) (f : Pump → Pump) (c : Conn)
    → (f (pump_of dir c)).captured ≡ (pump_of dir c).captured
    → (f (pump_of dir c)).cap_reached ≡ (pump_of dir c).cap_reached
    → view (on_pump dir f c) ≡ view c
on_pump-view relay_up f c a b = ground (arith, a, b)
on_pump-view relay_down f c a b = ground (arith, a, b)

-- The chunk that a round relays or drops, after its hold.
unfoldable pub chunk_of : Direction → Round → Conn → List (Direction × Bytes × Bool)
unfolding hold
chunk_of dir r c =
    let h = hold (record { bytes = r.bytes }) r.resolution in
    if has_returned (pump_of dir c).result
    then []
    else if ltb 0 (length r.bytes)
    then (dir, h.0.bytes, h.1.edited) ∷ []
    else []

-- Those of all rounds.
unfoldable pub held_chunks : ℕ → List (Direction × Round) → Conn → List (Direction × Bytes × Bool)
unfolding chunk_of pump
held_chunks max [] c = []
held_chunks max ((dir, r) ∷ rs) c =
    chunk_of dir r c ++ elim (pump max dir r c) [ none ↦ [] | some c' ↦ held_chunks max rs c' ]

end_round_keeps :
    (e : Option NetError) (p : Pump)
    → ((end_round e p).captured ≡ p.captured) × ((end_round e p).cap_reached ≡ p.cap_reached)
end_round_keeps none p = (refl, refl)
end_round_keeps (some e) p = (refl, refl)

relay_chunk_keeps :
    (r : Round) (h : Chunk × Outcome) (p : Pump)
    → ((relay_chunk r h p).captured ≡ p.captured)
      × ((relay_chunk r h p).cap_reached ≡ p.cap_reached)
relay_chunk_keeps r h p = ground (
  arith,
  end_round_keeps r.read_error p,
  end_round_keeps r.read_error (record p { written = p.written ++ h.0.bytes ∷ [] }),
)

relay_round-view :
    (max : ℕ) (dir : Direction) (r : Round) (c : Conn)
    → view_of (relay_round max dir r c)
      ≡ Session.store_chunk max dir
          (hold (record { bytes = r.bytes }) r.resolution).0.bytes
          (hold (record { bytes = r.bytes }) r.resolution).1.edited
          (view c)
unfolding relay_round
relay_round-view max dir r c =
    go (keep_chunk max dir h counted) refl
    ∙ keep_chunk-view max dir h counted
    ∙ ap (Session.store_chunk max dir h.0.bytes h.1.edited)
        (on_pump-view dir (count_bytes (length r.bytes)) c refl refl)
  where
    h : Chunk × Outcome
    h = hold (record { bytes = r.bytes }) r.resolution

    counted : Conn
    counted = on_pump dir (count_bytes (length r.bytes)) c

    go :
        (o : Option Conn)
        → keep_chunk max dir h counted ≡ o
        → view_of (relay_round max dir r c) ≡ view_of (keep_chunk max dir h counted)
    go none e = rw (e, relay_round) refl
    go (some c') e =
        let k = relay_chunk_keeps r h (pump_of dir c') in
        rw (e, relay_round) (ap some (on_pump-view dir (relay_chunk r h) c' k.0 k.1))

store_all_one :
    (max : ℕ) (dir : Direction) (p : Bytes) (edited : Bool) (s : CapSession)
    → store_all max ((dir, p, edited) ∷ []) s ≡ Session.store_chunk max dir p edited s
unfolding store_all
store_all_one max dir p edited s = go (Session.store_chunk max dir p edited s) refl
  where
    go :
        (o : Option CapSession)
        → Session.store_chunk max dir p edited s ≡ o
        → store_all max ((dir, p, edited) ∷ []) s ≡ Session.store_chunk max dir p edited s
    go none e = rw (e, store_all) refl
    go (some t) e = rw (e, store_all) refl

pump-view :
    (max : ℕ) (dir : Direction) (r : Round) (c : Conn)
    → view_of (pump max dir r c) ≡ store_all max (chunk_of dir r c) (view c)
unfolding pump chunk_of store_all
pump-view max dir r c =
    go (Bool-cases (has_returned (pump_of dir c).result)) (Bool-cases (ltb 0 (length r.bytes)))
  where
    h : Chunk × Outcome
    h = hold (record { bytes = r.bytes }) r.resolution

    go :
        (has_returned (pump_of dir c).result ≡ true) ⊎ (has_returned (pump_of dir c).result ≡ false)
        → (ltb 0 (length r.bytes) ≡ true) ⊎ (ltb 0 (length r.bytes) ≡ false)
        → view_of (pump max dir r c) ≡ store_all max (chunk_of dir r c) (view c)
    go (inl e) o = rw (e, pump, chunk_of) refl
    go (inr e) (inr z) =
        let k = end_round_keeps r.read_error (pump_of dir c) in
        rw (e, z, pump, chunk_of) (ap some (on_pump-view dir (end_round r.read_error) c k.0 k.1))
    go (inr e) (inl l) =
        rw (e, l, pump, chunk_of)
          (relay_round-view max dir r c ∙ sym (store_all_one max dir h.0.bytes h.1.edited (view c)))

-- Storing more, unless it panicked.
abbrev store_next : ℕ → List (Direction × Bytes × Bool) → Option CapSession → Option CapSession
store_next max qs none = none
store_next max qs (some t) = store_all max qs t

store_all-append :
    (max : ℕ) (ps qs : List (Direction × Bytes × Bool)) (s : CapSession)
    → store_all max (ps ++ qs) s ≡ store_next max qs (store_all max ps s)
unfolding store_all
store_all-append max [] qs s = refl
store_all-append max (p ∷ ps) qs s = elim (Option-cases (Session.store_chunk max p.0 p.1 p.2 s)) [
  | inl e ↦ rw (e, store_all) refl
  | inr (u, e) ↦ rw (e, store_all) (store_all-append max ps qs u)
]

-- The rows that a relayed connection stores are those that a session of the system capture stores of the same chunks, whatever the
-- holds, the errors and the interleaving of the two directions; and the one panics if the other does.
pub pump_all-store_all :
    (max : ℕ) (rs : List (Direction × Round)) (c : Conn)
    → view_of (pump_all max rs c) ≡ store_all max (held_chunks max rs c) (view c)
unfolding pump_all store_all held_chunks
pump_all-store_all max [] c = refl
pump_all-store_all max ((dir, r) ∷ rs) c = elim (Option-cases (pump max dir r c)) [
  | inl e ↦
      rw
        (
          e,
          pump_all,
          held_chunks,
          store_all-append max (chunk_of dir r c) [] (view c),
          sym (pump-view max dir r c),
        )
        (rw e refl)
  | inr (c', e) ↦
      rw
        (
          e,
          pump_all,
          held_chunks,
          store_all-append max (chunk_of dir r c) (held_chunks max rs c') (view c),
          sym (pump-view max dir r c),
        )
        (rw e (pump_all-store_all max rs c'))
]

-- However the rounds of the two pumps interleave, the stored rows of each direction are the first bytes of its chunks, up to the
-- cap, and no slice is out of range. The cap and the chunks of each direction are below 2^63 bytes.
pub relay_stored_prefix :
    (max : ℕ) (rs : List (Direction × Round))
    → max < int64_limit
    → length (traffic relay_up (held_chunks max rs new_conn)) < int64_limit
    → length (traffic relay_down (held_chunks max rs new_conn)) < int64_limit
    → (c : Conn) × (pump_all max rs new_conn ≡ some c)
      × (stored_bytes relay_up c.saved ≡ take max (traffic relay_up (held_chunks max rs new_conn)))
      × (stored_bytes relay_down c.saved
          ≡ take max (traffic relay_down (held_chunks max rs new_conn)))
unfolding new_conn
relay_stored_prefix max rs m a b = go (pump_all max rs new_conn) refl
  where
    ps : List (Direction × Bytes × Bool)
    ps = held_chunks max rs new_conn

    go :
        (o : Option Conn)
        → pump_all max rs new_conn ≡ o
        → (c : Conn) × (pump_all max rs new_conn ≡ some c)
          × (stored_bytes relay_up c.saved ≡ take max (traffic relay_up ps))
          × (stored_bytes relay_down c.saved ≡ take max (traffic relay_down ps))
    go none e =
        let (t, k, u, d) = stored_prefix max 0 0 [] [] [] relay_tcp ps m a b in
        absurd (ground (arith, sym (ap view_of e) ∙ pump_all-store_all max rs new_conn ∙ k))
    go (some c) e =
        let (t, k, u, d) = stored_prefix max 0 0 [] [] [] relay_tcp ps m a b in
        let q : some (view c) ≡ some t =
          sym (ap view_of e) ∙ pump_all-store_all max rs new_conn ∙ k in
        let v : view c ≡ t = ground (arith, q) in
        (
          c,
          e,
          ap (λ z. stored_bytes relay_up z.saved) v ∙ u,
          ap (λ z. stored_bytes relay_down z.saved) v ∙ d,
        )
