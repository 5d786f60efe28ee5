-- ===== src/Capture/Service/Counts.antt =====
-- What a session shows of a payload that was accounted for.
use mathlib.Core.Path.{subst}
use proxy_scope.Capture.Service.{Service, Bytes, account}
use proxy_scope.Prelude.{
  take_all, sym, leb, inr, refl, [], inl, ltb, Option-cases, ◌∷◌, Bool-cases, ◌-◌, ◌++◌, some, take,
  if◌then◌else◌, false, ◌≤◌, ◌+◌, length, true, arith, Bool, ◌≡◌, ◌<◌, ℕ,
}
use proxy_scope.Chunk.{Row, relay_down, relay_up, Direction}
use proxy_scope.Capture.Service.Fits.{Fits}
use proxy_scope.Hold.Machine.{update}
use proxy_scope.Capture.Session.{keep_row, store_chunk, track_bytes, tally_of, CapSession}
use proxy_scope.Capture.Session.Prefix.{fitting_whole, fitting_part}
use proxy_scope.Prelude.Word.{add64, int64_limit}

abbrev pub bytes_of : Direction → CapSession → ℕ
bytes_of relay_up sess = sess.bytes_up
bytes_of relay_down sess = sess.bytes_down

-- The row of a payload that was not edited: what of it is under the cap, and its size.
abbrev pub row_of : ℕ → Direction → Bytes → CapSession → Row
row_of max dir p sess =
    let captured = (tally_of dir sess).captured in
    record {
      seq = add64 sess.seq 1;
      direction = dir;
      data_ = take (max - captured) p;
      data_size = length p;
      edited = false;
      capped = ltb max (captured + length p);
    }

-- The session `new` has counted the payload on top of `old` and saved its row, unless the cap was reached before.
abbrev pub Counts : ℕ → Direction → Bytes → ℕ → CapSession → CapSession → Type 0
Counts max dir p now old new =
    (bytes_of dir new ≡ add64 (bytes_of dir old) (length p))
    × (new.last_activity ≡ now)
    × (new.saved ≡ (
        if (tally_of dir old).cap_reached
        then old.saved
        else old.saved ++ row_of max dir p old ∷ []))

module _ (max : ℕ) (small : max < int64_limit) where
  stored-Counts :
      (dir : Direction) (p stored : Bytes) (capped : Bool) (now : ℕ) (sess : CapSession)
      → (tally_of dir sess).cap_reached ≡ false
      → stored ≡ take (max - (tally_of dir sess).captured) p
      → capped ≡ ltb max ((tally_of dir sess).captured + length p)
      → Counts max dir p now sess
          (track_bytes dir (length p) now (keep_row stored capped dir p false sess))
  unfolding track_bytes
  stored-Counts relay_up p stored capped now sess r e f = rw (r, e, f) (refl, refl, refl)
  stored-Counts relay_down p stored capped now sess r e f = rw (r, e, f) (refl, refl, refl)

  reached-Counts :
      (dir : Direction) (p : Bytes) (now : ℕ) (sess : CapSession)
      → (tally_of dir sess).cap_reached ≡ true
      → Counts max dir p now sess (track_bytes dir (length p) now sess)
  unfolding track_bytes
  reached-Counts relay_up p now sess r = rw r (refl, refl, refl)
  reached-Counts relay_down p now sess r = rw r (refl, refl, refl)

  store_chunk-Counts :
      (dir : Direction) (p : Bytes) (now : ℕ) (sess sess' : CapSession)
      → (tally_of dir sess).captured ≤ max
      → max + length p < int64_limit
      → store_chunk max dir p false sess ≡ some sess'
      → Counts max dir p now sess (track_bytes dir (length p) now sess')
  unfolding store_chunk
  store_chunk-Counts dir p now sess sess' h k e =
      elim (Bool-cases (tally_of dir sess).cap_reached) [
        | inl r ↦
            let q : sess ≡ sess' = ground arith in
            subst (λ z. Counts max dir p now sess (track_bytes dir (length p) now z)) q
              (reached-Counts dir p now sess r)
        | inr r ↦ elim (Bool-cases (leb ((tally_of dir sess).captured + length p) max)) [
          | inl f ↦
              let q : keep_row p false dir p false sess ≡ sess' =
                ground (arith, fitting_whole max small (tally_of dir sess).captured p) in
              subst (λ z. Counts max dir p now sess (track_bytes dir (length p) now z)) q
                (stored-Counts dir p p false now sess r (sym (take_all _ p (ground arith)))
                  (ground arith))
          | inr f ↦
              let q : keep_row (take (max - (tally_of dir sess).captured) p) true dir p false sess
                  ≡ sess' =
                ground (arith, fitting_part max small (tally_of dir sess).captured p) in
              subst (λ z. Counts max dir p now sess (track_bytes dir (length p) now z)) q
                (stored-Counts dir p _ true now sess r refl (ground arith))
        ]
      ]

captured_small :
    (dir : Direction) (ptr : ℕ) (s : Service)
    → Fits s
    → (tally_of dir (s.heap ptr)).captured ≤ s.max_capture
captured_small relay_up ptr s f = (f.1 ptr).0
captured_small relay_down ptr s f = (f.1 ptr).1

update_same : {A : Type 0} (heap : ℕ → A) (ptr : ℕ) (a : A) → update heap ptr a ptr ≡ a
update_same heap ptr a = ground arith

pub account-Counts :
    (ptr : ℕ) (dir : Direction) (p : Bytes) (now : ℕ) (s s' : Service)
    → Fits s
    → s.max_capture + length p < int64_limit
    → account ptr dir p false (length p) now s ≡ some s'
    → Counts s.max_capture dir p now (s.heap ptr) (s'.heap ptr)
unfolding account
account-Counts ptr dir p now s s' f h e =
    elim (Option-cases (store_chunk s.max_capture dir p false (s.heap ptr))) [
      | inl g ↦ absurd (ground arith)
      | inr (sess, g) ↦
          let q : record s { heap = update s.heap ptr (track_bytes dir (length p) now sess) } ≡ s' =
            ground arith in
          let c =
            store_chunk-Counts s.max_capture f.0 dir p now (s.heap ptr) sess
              (captured_small dir ptr s f) h g in
          subst (λ z. Counts s.max_capture dir p now (s.heap ptr) (z.heap ptr)) q
            (rw (update_same s.heap ptr (track_bytes dir (length p) now sess)) c)
    ]
