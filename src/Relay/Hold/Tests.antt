-- ===== src/Relay/Hold/Tests.antt =====
-- Runs of the hold queue of the relay.
use proxy_scope.Prelude.Word.{add64}
use proxy_scope.Prelude.{refl, [], arith, some, ◌≡◌, false, ◌∷◌, true, List}
use proxy_scope.Prelude.Text.{equal}
use proxy_scope.Relay.Hold.Delivery.{chunk_resolve_returns, after, client}
use proxy_scope.Hold.Client.{run}
use proxy_scope.Hold.Machine
use proxy_scope.Hold.Machine.{sent, tag, lost, done, waiting}
use proxy_scope.Hold.Table.{lookup, insert, delete, select}
use proxy_scope.Relay.Hold.{
  HeldChunk, get, Call, sets, enqueues, expires, taken, resolved, sends, received, step,
  set_settings, enqueue, passes, make_item, new_hold_queue, resolve, expire, turns_off_in,
  turns_off,
}
use proxy_scope.Chunk.{Chunk, Resolution, unmodified, no_note, turned_off, relay_up, Settings}

abbrev both_on : Settings
both_on = record { up = true; down = true }

abbrev both_off : Settings
both_off = record { up = false; down = false }

abbrev hello : Chunk
hello = record { bytes = 104 ∷ 105 ∷ [] }

-- One is held.
abbrev one_held : List Call
one_held = sets (116 ∷ []) both_on ∷ enqueues (116 ∷ []) 9 relay_up hello 5 ∷ []

abbrev held_item : HeldChunk
held_item = record {
  sum = record {
    id = 1;
    target = 116 ∷ [];
    session_id = 9;
    direction = relay_up;
    size = 2;
    created = 5;
    expires = some 35;
  };
  chunk = hello;
}

-- The timer wins the select, and the user resolves the item before the goroutine takes it.
abbrev one_lost : List Call
one_lost =
    sets (116 ∷ []) both_on
    ∷ enqueues (116 ∷ []) 9 relay_up hello 5
    ∷ expires 1
    ∷ resolved 1 (unmodified no_note)
    ∷ taken 1
    ∷ []

-- The send and the receive that end a waiting goroutine.
abbrev handed_over : List Call
handed_over = sends 1 ∷ received 1 ∷ []

one_held-get : get 1 (after 30 one_held) ≡ some held_item
unfolding run step set_settings enqueue passes make_item new_hold_queue resolve expire get
    turns_off_in lookup insert delete select tag sent add64 Machine.hold Machine.release Machine.add
    Machine.resolve Machine.step Machine.deliver Machine.leave_from Machine.take_from
    Machine.receive_from equal
one_held-get = refl

one_held-waits : (after 30 one_held).world.phase 1 ≡ waiting
unfolding run step set_settings enqueue passes make_item new_hold_queue resolve expire get
    turns_off_in lookup insert delete select tag sent add64 Machine.hold Machine.release Machine.add
    Machine.resolve Machine.step Machine.deliver Machine.leave_from Machine.take_from
    Machine.receive_from equal
one_held-waits = refl

one_lost-lost : (after 30 one_lost).world.phase 1 ≡ lost
unfolding run step set_settings enqueue passes make_item new_hold_queue resolve expire get
    turns_off_in lookup insert delete select tag sent add64 Machine.hold Machine.release Machine.add
    Machine.resolve Machine.step Machine.deliver Machine.leave_from Machine.take_from
    Machine.receive_from equal
one_lost-lost = refl

resolve_hands_over :
    (run client (resolve 1 (unmodified no_note) (after 30 one_held)).0 handed_over).world.phase 1
    ≡ done (unmodified no_note)
unfolding run step set_settings enqueue passes make_item new_hold_queue resolve expire get
    turns_off_in lookup insert delete select tag sent add64 Machine.hold Machine.release Machine.add
    Machine.resolve Machine.step Machine.deliver Machine.leave_from Machine.take_from
    Machine.receive_from equal
resolve_hands_over = refl

sets_hands_over :
    (run client (set_settings (116 ∷ []) both_off (after 30 one_held)) handed_over).world.phase 1
    ≡ done (unmodified turned_off)
unfolding run step set_settings enqueue passes make_item new_hold_queue resolve expire get
    turns_off_in lookup insert delete select tag sent add64 Machine.hold Machine.release Machine.add
    Machine.resolve Machine.step Machine.deliver Machine.leave_from Machine.take_from
    Machine.receive_from equal
sets_hands_over = refl

both_off-turns_off :
    turns_off (116 ∷ []) ((after 30 one_held).settings (116 ∷ [])) both_off held_item ≡ true
unfolding run step set_settings enqueue passes make_item new_hold_queue resolve expire get
    turns_off_in lookup insert delete select tag sent add64 Machine.hold Machine.release Machine.add
    Machine.resolve Machine.step Machine.deliver Machine.leave_from Machine.take_from
    Machine.receive_from equal
both_off-turns_off = refl

chunk_resolve_returns_example : unmodified no_note ≡ unmodified no_note
chunk_resolve_returns_example =
    chunk_resolve_returns 30 one_held handed_over (omega arith) 1 held_item one_held-get
      (unmodified no_note) (unmodified no_note) resolve_hands_over

-- The user appends a byte.
abbrev longer : Chunk
longer = record { bytes = 104 ∷ 105 ∷ 33 ∷ [] }

abbrev edit : Resolution
edit = record { drop = false; chunk = some longer; note = no_note }
