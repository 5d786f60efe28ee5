-- ===== src/Relay/Hold/Pause.antt =====
-- Chunks are held only in directions that are on, each under its own id.
use proxy_scope.Prelude.Text.{equal_refl, equal_iff}
use mathlib.Core.Option.{none}
use proxy_scope.Prelude.{
  [], refl, ltb, arith, inr, ◌↔◌, true, inl, false, some, Bool-cases, not, ◌∷◌, ◌≡◌, ℕ, List,
  Option,
}
use proxy_scope.Hold.Machine
use proxy_scope.Hold.Client.{run}
use proxy_scope.Hold.Table.{All, All-lookup}
use proxy_scope.Hold.Machine.Entries.{
  hold-All, release-All, resolve-All, leave-All, take-All, deliver-All, receive-All,
}
use proxy_scope.Relay.Hold.{
  equal, verdict_forward, Bytes, assign, HoldQueue, HeldChunk, Call, new_hold_queue, step, sets,
  enqueues, resolved, expires, shuts, sends, taken, received, set_settings, enqueue, resolve,
  expire, shut_down, make_item, passes, turns_off, turns_off_in, get, finish, edit_chunk,
}
use proxy_scope.Relay.Hold.Delivery.{client, after}
use proxy_scope.Chunk.{Settings, Direction, relay_up, relay_down, Chunk, Resolution}

passes-turns_off_in :
    (d : Direction) (old s : Settings)
    → passes d old ≡ false
    → not (turns_off_in d old s) ≡ true
    → passes d s ≡ false
unfolding passes turns_off_in
passes-turns_off_in relay_up old s h t = ground arith
passes-turns_off_in relay_down old s h t = ground arith

-- An entry whose direction is on, under its own id.
abbrev Held : (Bytes → Settings) → ℕ → HeldChunk → Type 0
Held s k it = (passes it.sum.direction (s it.sum.target) ≡ false) × (it.sum.id ≡ k)

keeps :
    (target : Bytes) (s : Settings) (old : Bytes → Settings) (k : ℕ) (it : HeldChunk)
    → Held old k it
    → not (turns_off target (old target) s it) ≡ true
    → Held (assign target s old) k it
keeps target s old k it h t = elim (Bool-cases (equal it.sum.target target)) [
  | inl same ↦
      let e = (equal_iff it.sum.target target).0 same in
      (
        rw (e, equal_refl target)
            (passes-turns_off_in it.sum.direction (old target) s (rw e at h.0) (rw same at t)),
        h.1,
      )
  | inr other ↦
      (ground (arith, h.0, equal_iff it.sum.target target, equal_iff target it.sum.target), h.1)
]

abbrev AllHeld : HoldQueue → Type 0
AllHeld q = All (Held q.settings) q.world.items

step-AllHeld : (q : HoldQueue) (c : Call) → AllHeld q → AllHeld (step q c)
unfolding step set_settings enqueue resolve expire shut_down make_item Machine.step
step-AllHeld q (sets target s) a =
    release-All (Held q.settings) (Held (assign target s q.settings))
      (turns_off target (q.settings target) s) _ q.world (keeps target s q.settings) a
step-AllHeld q (enqueues target session_id dir chunk now) a =
    elim (Bool-cases (passes dir (q.settings target))) [
      | inl e ↦ rw (e, enqueue) a
      | inr e ↦
          rw (e, enqueue)
            (hold-All (Held q.settings) (make_item q.timeout target session_id dir chunk now)
              q.world (e, refl) a)
    ]
step-AllHeld q (resolved i res) a = resolve-All (Held q.settings) i res q.world a
step-AllHeld q (expires i) a = elim (Bool-cases (ltb 0 q.timeout)) [
  | inl e ↦ rw (e, expire) (leave-All (Held q.settings) (q.world.phase i) i _ q.world a)
  | inr e ↦ rw (e, expire) a
]
step-AllHeld q (shuts i) a = leave-All (Held q.settings) (q.world.phase i) i _ q.world a
step-AllHeld q (sends i) a = deliver-All (Held q.settings) i q.world a
step-AllHeld q (taken i) a = take-All (Held q.settings) (q.world.phase i) i q.world a
step-AllHeld q (received i) a = receive-All (Held q.settings) (q.world.phase i) i q.world a

run-AllHeld : (q : HoldQueue) (cs : List Call) → AllHeld q → AllHeld (run client q cs)
unfolding run
run-AllHeld q [] a = a
run-AllHeld q (c ∷ cs) a = run-AllHeld (step q c) cs (step-AllHeld q c a)

-- After any history, every held chunk travels in a direction that is on for its target, and its
-- summary shows the id under which it can be resolved.
pub chunk_held_while_on :
    (timeout : ℕ) (cs : List Call) (i : ℕ) (it : HeldChunk)
    → get i (after timeout cs) ≡ some it
    → (passes it.sum.direction ((after timeout cs).settings it.sum.target) ≡ false)
      × (it.sum.id ≡ i)
unfolding get new_hold_queue
chunk_held_while_on timeout cs i it =
    All-lookup (Held (after timeout cs).settings) i (after timeout cs).world.items it
      (run-AllHeld (new_hold_queue timeout) cs tt)

abbrev pub wanted : Chunk → Option Chunk → Chunk
wanted held none = held
wanted held (some c) = c

-- A chunk that is not dropped goes on with the bytes that the user asked for, or else its own, and
-- the outcome says that it was edited exactly when these differ from the held ones.
pub chunk_finish_forwards :
    (held : Chunk) (res : Resolution)
    → res.drop ≡ false
    → ((finish held res).1.verdict ≡ verdict_forward)
      × ((finish held res).0.bytes ≡ (wanted held res.chunk).bytes)
      × (((finish held res).1.edited ≡ false) ↔ ((wanted held res.chunk).bytes ≡ held.bytes))
unfolding finish
chunk_finish_forwards held res d = rw (d, finish) (go res.chunk)
  where
    go :
        (o : Option Chunk)
        → ((edit_chunk held o res.note).1.verdict ≡ verdict_forward)
          × ((edit_chunk held o res.note).0.bytes ≡ (wanted held o).bytes)
          × (((edit_chunk held o res.note).1.edited ≡ false) ↔ ((wanted held o).bytes ≡ held.bytes))
    go none = (refl, refl, ((λ x. refl), (λ x. refl)))
    go (some c) = ground (arith, equal_iff c.bytes held.bytes)
