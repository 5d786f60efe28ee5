-- ===== src/Capture/Session/Prefix.antt =====
-- What the rows of a session hold of the traffic in one direction.
use mathlib.Core.Path.{subst}
use mathlib.Core.Option.{none}
use proxy_scope.Prelude.{
  Option-cases, ap, refl, leb, Bool-cases, ◌∷◌, length-append, take_all, sym, ◌∙◌, ◌-◌, inl,
  take-append, arith, inr, take, ◌⊎◌, ◌≡◌, [], if◌then◌else◌, false, length, ◌+◌, ◌≤◌, some, Option,
  ◌<◌, true, ◌++◌, List, ℕ, Bool,
}
use mathlib.Core.List.{◌∷◌, append-nil, append_assoc}
use proxy_scope.Prelude.Text.{Bytes}
use proxy_scope.Prelude.Word.{int64_limit, add64, add64_small, sub64_small, lt64_small}
use proxy_scope.Chunk.{Row, Direction, relay_up, relay_down}
use proxy_scope.Capture.Session.{
  new_session, Protocol, keep_row, CapSession, fitting, store_chunk, tally_of,
}

abbrev same_way : Direction → Direction → Bool
same_way relay_up relay_up = true
same_way relay_up relay_down = false
same_way relay_down relay_up = false
same_way relay_down relay_down = true

-- The stored bytes of a direction, in order.
abbrev pub stored_bytes : Direction → List Row → Bytes
stored_bytes dir [] = []
stored_bytes dir (r ∷ rs) =
    if same_way r.direction dir then r.data_ ++ stored_bytes dir rs else stored_bytes dir rs

-- The payloads of a direction, in order.
abbrev pub traffic : Direction → List (Direction × Bytes × Bool) → Bytes
traffic dir [] = []
traffic dir (p ∷ ps) = if same_way p.0 dir then p.1 ++ traffic dir ps else traffic dir ps

-- The packets of a session, one after the other.
unfoldable pub store_all : ℕ → List (Direction × Bytes × Bool) → CapSession → Option CapSession
store_all max [] sess = some sess
store_all max (p ∷ ps) sess = elim (store_chunk max p.0 p.1 p.2 sess) [
  | none ↦ none
  | some sess' ↦ store_all max ps sess'
]

stored_bytes-append :
    (dir : Direction) (rs : List Row) (r : Row)
    → stored_bytes dir (rs ++ r ∷ [])
      ≡ stored_bytes dir rs ++ (if same_way r.direction dir then r.data_ else [])
stored_bytes-append dir [] r = ground (arith, append-nil r.data_)
stored_bytes-append dir (x ∷ rs) r = ground (
  arith,
  stored_bytes-append dir rs r,
  append_assoc x.data_ (stored_bytes dir rs) (if same_way r.direction dir then r.data_ else []),
)

module _ (max : ℕ) (small : max < int64_limit) where
  pub fitting_whole :
      (captured : ℕ) (p : Bytes)
      → captured + length p ≤ max
      → fitting max captured p ≡ some (p, false)
  unfolding fitting
  fitting_whole captured p h =
      ground (arith, add64_small captured (length p), lt64_small max (captured + length p))

  pub fitting_part :
      (captured : ℕ) (p : Bytes)
      → captured ≤ max
      → max < captured + length p
      → captured + length p < int64_limit
      → fitting max captured p ≡ some (take (max - captured) p, true)
  unfolding fitting
  fitting_part captured p h k l = ground (
    arith,
    add64_small captured (length p),
    lt64_small max (captured + length p),
    sub64_small max captured,
    lt64_small (max - captured) 0,
  )

  -- Nothing was cut yet, or the cap was reached.
  abbrev Kept : Direction → Bytes → CapSession → Type 0
  Kept dir past sess =
      (((tally_of dir sess).cap_reached ≡ false)
        × ((tally_of dir sess).captured ≡ length past)
        × (length past ≤ max)
        × (stored_bytes dir sess.saved ≡ past))
      ⊎ (((tally_of dir sess).cap_reached ≡ true)
          × (max ≤ length past)
          × (stored_bytes dir sess.saved ≡ take max past))

  Kept-take :
      (dir : Direction) (past : Bytes) (sess : CapSession)
      → Kept dir past sess
      → stored_bytes dir sess.saved ≡ take max past
  Kept-take dir past sess (inl (a, b, c, d)) = d ∙ sym (take_all max past c)
  Kept-take dir past sess (inr (a, b, c)) = c

  take_more : (past p : Bytes) → max ≤ length past → take max (past ++ p) ≡ take max past
  take_more past p h = take-append max past p ∙ ground (arith, append-nil (take max past))

  keeps-bytes :
      (dir : Direction) (stored : Bytes) (capped : Bool) (p : Bytes) (edited : Bool)
      (sess : CapSession)
      → stored_bytes dir (keep_row stored capped dir p edited sess).saved
        ≡ stored_bytes dir sess.saved ++ stored
  keeps-bytes relay_up stored capped p edited sess = stored_bytes-append relay_up sess.saved _
  keeps-bytes relay_down stored capped p edited sess = stored_bytes-append relay_down sess.saved _

  keeps-tally :
      (dir : Direction) (stored : Bytes) (capped : Bool) (p : Bytes) (edited : Bool)
      (sess : CapSession)
      → tally_of dir (keep_row stored capped dir p edited sess) ≡ record {
        captured = add64 (tally_of dir sess).captured (length stored);
        cap_reached = capped;
      }
  keeps-tally relay_up stored capped p edited sess = refl
  keeps-tally relay_down stored capped p edited sess = refl

  -- One packet in the direction.
  store-Kept :
      (dir : Direction) (past p : Bytes) (edited : Bool) (sess : CapSession)
      → length past + length p < int64_limit
      → Kept dir past sess
      → (sess' : CapSession) × (store_chunk max dir p edited sess ≡ some sess')
        × Kept dir (past ++ p) sess'
  unfolding store_chunk
  store-Kept dir past p edited sess b (inr (r, m, s)) = (
    sess,
    ground arith,
    inr (r, ground (arith, length-append past p), s ∙ sym (take_more past p m)),
  )
  store-Kept dir past p edited sess b (inl (r, c, m, s)) =
      elim (Bool-cases (leb (length past + length p) max)) [
        | inl e ↦ (
          keep_row p false dir p edited sess,
          rw (r, fitting_whole (tally_of dir sess).captured p (ground arith)) refl,
          inl (
            ground (arith, keeps-tally dir p false p edited sess),
            ground (
              arith,
              keeps-tally dir p false p edited sess,
              add64_small (tally_of dir sess).captured (length p),
              length-append past p,
            ),
            ground (arith, length-append past p),
            keeps-bytes dir p false p edited sess ∙ ap (◌++ p) s,
          ),
        )
        | inr e ↦ (
          keep_row (take (max - (tally_of dir sess).captured) p) true dir p edited sess,
          rw
              (
                r,
                fitting_part (tally_of dir sess).captured p (ground arith) (ground arith)
                    (ground arith),
              )
              refl,
          inr (
            ground (
              arith,
              keeps-tally dir (take (max - (tally_of dir sess).captured) p) true p edited sess,
            ),
            ground (arith, length-append past p),
            keeps-bytes dir (take (max - (tally_of dir sess).captured) p) true p edited sess
                ∙ rw (s, c)
                    (ap (◌++ take (max - length past) p) (sym (take_all max past m))
                      ∙ sym (take-append max past p)),
          ),
        )
      ]

  keeps-other :
      (dir way : Direction) (past : Bytes) (o : Bytes × Bool) (p : Bytes) (edited : Bool)
      (sess : CapSession)
      → same_way way dir ≡ false
      → Kept dir past sess
      → Kept dir past (keep_row o.0 o.1 way p edited sess)
  keeps-other relay_up relay_up past o p edited sess d k = absurd (ground arith)
  keeps-other relay_up relay_down past o p edited sess d k =
      rw (stored_bytes-append relay_up sess.saved _, append-nil (stored_bytes relay_up sess.saved))
        k
  keeps-other relay_down relay_up past o p edited sess d k =
      rw
        (
          stored_bytes-append relay_down sess.saved _,
          append-nil (stored_bytes relay_down sess.saved),
        )
        k
  keeps-other relay_down relay_down past o p edited sess d k = absurd (ground arith)

  -- One packet in the other direction.
  other-Kept :
      (dir way : Direction) (past p : Bytes) (edited : Bool) (sess sess' : CapSession)
      → same_way way dir ≡ false
      → store_chunk max way p edited sess ≡ some sess'
      → Kept dir past sess
      → Kept dir past sess'
  unfolding store_chunk
  other-Kept dir way past p edited sess sess' d e k =
      elim (Bool-cases (tally_of way sess).cap_reached) [
        | inl r ↦ subst (Kept dir past) (sess_is r e) k
        | inr r ↦ elim (Option-cases (fitting max (tally_of way sess).captured p)) [
          | inl f ↦ absurd (ground arith)
          | inr (o, f) ↦
              subst (Kept dir past) (kept_is r o f e) (keeps-other dir way past o p edited sess d k)
        ]
      ]
    where
      sess_is :
          (tally_of way sess).cap_reached ≡ true
          → store_chunk max way p edited sess ≡ some sess'
          → sess ≡ sess'
      sess_is r h = ground arith

      kept_is :
          (tally_of way sess).cap_reached ≡ false
          → (o : Bytes × Bool) → fitting max (tally_of way sess).captured p ≡ some o
          → store_chunk max way p edited sess ≡ some sess'
          → keep_row o.0 o.1 way p edited sess ≡ sess'
      kept_is r o f h = ground arith

  store_all_next :
      (way : Direction) (p : Bytes) (edited : Bool) (ps : List (Direction × Bytes × Bool))
      (sess sess' : CapSession)
      → store_chunk max way p edited sess ≡ some sess'
      → store_all max ((way, p, edited) ∷ ps) sess ≡ store_all max ps sess'
  unfolding store_all
  store_all_next way p edited ps sess sess' e = rw (e, store_all) refl

  -- Both directions, packet by packet.
  all-Kept :
      (ps : List (Direction × Bytes × Bool)) (up down : Bytes) (sess : CapSession)
      → length up + length (traffic relay_up ps) < int64_limit
      → length down + length (traffic relay_down ps) < int64_limit
      → Kept relay_up up sess
      → Kept relay_down down sess
      → (sess' : CapSession) × (store_all max ps sess ≡ some sess')
        × Kept relay_up (up ++ traffic relay_up ps) sess'
        × Kept relay_down (down ++ traffic relay_down ps) sess'
  unfolding store_all
  all-Kept [] up down sess b c k l = (sess, refl, rw (append-nil up) k, rw (append-nil down) l)
  all-Kept ((relay_up, p, edited) ∷ ps) up down sess b c k l =
      let (sess', e, k') =
        store-Kept relay_up up p edited sess (ground (arith, length-append p (traffic relay_up ps)))
          k in
      let (sess'', e', k'', l'') =
        all-Kept ps (up ++ p) down sess'
          (ground (arith, length-append p (traffic relay_up ps), length-append up p)) c k'
          (other-Kept relay_down relay_up down p edited sess sess' refl e l) in
      (
        sess'',
        store_all_next relay_up p edited ps sess sess' e ∙ e',
        rw (sym (append_assoc up p (traffic relay_up ps))) k'',
        l'',
      )
  all-Kept ((relay_down, p, edited) ∷ ps) up down sess b c k l =
      let (sess', e, l') =
        store-Kept relay_down down p edited sess
          (ground (arith, length-append p (traffic relay_down ps))) l in
      let (sess'', e', k'', l'') =
        all-Kept ps up (down ++ p) sess' b
          (ground (arith, length-append p (traffic relay_down ps), length-append down p))
          (other-Kept relay_up relay_down up p edited sess sess' refl e k) l' in
      (
        sess'',
        store_all_next relay_down p edited ps sess sess' e ∙ e',
        k'',
        rw (sym (append_assoc down p (traffic relay_down ps))) l'',
      )

-- However the packets of both directions interleave, storing them never slices out of range, and the rows of each direction together
-- are the first bytes of its traffic, up to the cap. The cap and the traffic of
-- each direction are below 2^63 bytes.
pub stored_prefix :
    (max id now : ℕ) (key client upstream : Bytes) (protocol : Protocol)
    (ps : List (Direction × Bytes × Bool))
    → max < int64_limit
    → length (traffic relay_up ps) < int64_limit
    → length (traffic relay_down ps) < int64_limit
    → (sess : CapSession) × (store_all max ps (new_session id key client upstream protocol now)
        ≡ some sess)
      × (stored_bytes relay_up sess.saved ≡ take max (traffic relay_up ps))
      × (stored_bytes relay_down sess.saved ≡ take max (traffic relay_down ps))
stored_prefix max id now key client upstream protocol ps m b c =
    let (sess, e, k, l) =
      all-Kept max m ps [] [] (new_session id key client upstream protocol now) (omega arith)
        (omega arith) (inl (refl, refl, omega arith, refl)) (inl (refl, refl, omega arith, refl)) in
    (
      sess,
      e,
      Kept-take max m relay_up (traffic relay_up ps) sess k,
      Kept-take max m relay_down (traffic relay_down ps) sess l,
    )
