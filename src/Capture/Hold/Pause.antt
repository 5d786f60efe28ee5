-- ===== src/Capture/Hold/Pause.antt =====
-- Packets are held only in directions that are on, each under its own id.
use proxy_scope.Prelude.Text.{equal_iff}
use mathlib.Core.Option.{none}
use proxy_scope.Prelude.{
  [], refl, true, ◌↔◌, arith, ltb, not, Option-cases, inr, false, some, ◌∷◌, ◌⊎◌, inl, ◌≡◌, ℕ,
  Bool-cases, List, Option,
}
use proxy_scope.Hold.Machine
use proxy_scope.Hold.Client.{run}
use proxy_scope.Hold.Table.{All, All-lookup, lookup}
use proxy_scope.Hold.Machine.Entries.{
  hold-All, release-All, resolve-All, leave-All, take-All, deliver-All, receive-All,
}
use proxy_scope.Capture.Hold.{
  verdict_forward, some, chunk_mismatch, HoldQueue, HeldPacket, Call, new_hold_queue, step, sets,
  enqueues, resolved, expires, shuts, sends, taken, received, set_settings, enqueue, resolve,
  expire, shut_down, make_item, passes, turns_off, turns_off_in, get, finish, edit_chunk,
}
use proxy_scope.Capture.Hold.Delivery.{client, after}
use proxy_scope.Chunk.{Settings, Direction, relay_up, relay_down, Chunk, Resolution}

passes-turns_off_in :
    (d : Direction) (old s : Settings)
    → passes d old ≡ false
    → not (turns_off_in d old s) ≡ true
    → passes d s ≡ false
unfolding passes turns_off_in
passes-turns_off_in relay_up old s h t = ground arith
passes-turns_off_in relay_down old s h t = ground arith

-- An entry whose direction is on, under its own id.
abbrev Held : Settings → ℕ → HeldPacket → Type 0
Held s k it = (passes it.sum.direction s ≡ false) × (it.sum.id ≡ k)

abbrev AllHeld : HoldQueue → Type 0
AllHeld q = All (Held q.settings) q.world.items

resolve_cases :
    (id : ℕ) (res : Resolution) (q : HoldQueue)
    → ((resolve id res q).0 ≡ q)
      ⊎ ((resolve id res q).0 ≡ record q { world = Machine.resolve id res q.world })
unfolding resolve
resolve_cases id res q = elim (Option-cases (lookup id q.world.items)) [
  | inl e ↦ inl (ground arith)
  | inr (it, e) ↦ elim (Bool-cases (chunk_mismatch it.protocol res.chunk it.chunk)) [
    | inl m ↦ inl (ground arith)
    | inr m ↦ inr (ground arith)
  ]
]

step-AllHeld : (q : HoldQueue) (c : Call) → AllHeld q → AllHeld (step q c)
unfolding step set_settings enqueue resolve expire shut_down make_item Machine.step
step-AllHeld q (sets s) a =
    release-All (Held q.settings) (Held s) (turns_off q.settings s) _ q.world
      (λ k it h t. (passes-turns_off_in it.sum.direction q.settings s h.0 t, h.1)) a
step-AllHeld q (enqueues session_id dir protocol filter chunk now) a =
    elim (Bool-cases (passes dir q.settings)) [
      | inl e ↦ rw (e, enqueue) a
      | inr e ↦
          rw (e, enqueue)
            (hold-All (Held q.settings)
              (make_item q.timeout filter session_id dir protocol chunk now) q.world (e, refl) a)
    ]
step-AllHeld q (resolved i res) a = elim (resolve_cases i res q) [
  | inl e ↦ rw e a
  | inr e ↦ rw e (resolve-All (Held q.settings) i res q.world a)
]
step-AllHeld q (expires i) a = elim (Bool-cases (ltb 0 q.timeout)) [
  | inl e ↦ rw (e, expire) (leave-All (Held q.settings) (q.world.phase i) i _ q.world a)
  | inr e ↦ rw (e, expire) a
]
step-AllHeld q (shuts i) a = leave-All (Held q.settings) (q.world.phase i) i _ q.world a
step-AllHeld q (sends i) a = deliver-All (Held q.settings) i q.world a
step-AllHeld q (taken i) a = take-All (Held q.settings) (q.world.phase i) i q.world a
step-AllHeld q (received i) a = receive-All (Held q.settings) (q.world.phase i) i q.world a

run-AllHeld : (q : HoldQueue) (cs : List Call) → AllHeld q → AllHeld (run client q cs)
unfolding run
run-AllHeld q [] a = a
run-AllHeld q (c ∷ cs) a = run-AllHeld (step q c) cs (step-AllHeld q c a)

-- After any history, every held packet travels in a direction that is on, and its
-- summary shows the id under which it can be resolved.
pub packet_held_while_on :
    (timeout : ℕ) (cs : List Call) (i : ℕ) (it : HeldPacket)
    → get i (after timeout cs) ≡ some it
    → (passes it.sum.direction (after timeout cs).settings ≡ false) × (it.sum.id ≡ i)
unfolding get new_hold_queue
packet_held_while_on timeout cs i it =
    All-lookup (Held (after timeout cs).settings) i (after timeout cs).world.items it
      (run-AllHeld (new_hold_queue timeout) cs tt)

abbrev pub wanted : Chunk → Option Chunk → Chunk
wanted held none = held
wanted held (some c) = c

-- A packet that is not dropped goes on with the bytes that the user asked for, or else its own, and
-- the outcome says that it was edited exactly when these differ from the held ones.
pub packet_finish_forwards :
    (held : Chunk) (res : Resolution)
    → res.drop ≡ false
    → ((finish held res).1.verdict ≡ verdict_forward)
      × ((finish held res).0.bytes ≡ (wanted held res.chunk).bytes)
      × (((finish held res).1.edited ≡ false) ↔ ((wanted held res.chunk).bytes ≡ held.bytes))
unfolding finish
packet_finish_forwards held res d = rw (d, finish) (go res.chunk)
  where
    go :
        (o : Option Chunk)
        → ((edit_chunk held o res.note).1.verdict ≡ verdict_forward)
          × ((edit_chunk held o res.note).0.bytes ≡ (wanted held o).bytes)
          × (((edit_chunk held o res.note).1.edited ≡ false) ↔ ((wanted held o).bytes ≡ held.bytes))
    go none = (refl, refl, ((λ x. refl), (λ x. refl)))
    go (some c) = ground (arith, equal_iff c.bytes held.bytes)
