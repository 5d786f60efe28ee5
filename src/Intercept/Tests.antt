-- ===== src/Intercept/Tests.antt =====
-- Runs of the intercept queue.
use proxy_scope.Intercept.Edits.{finish_request_forwards, finish_response_forwards}
use proxy_scope.Prelude.Word.{add64}
use proxy_scope.Http.Message.Same.{SameResponse, SameRequest}
use proxy_scope.Intercept.Pause.{held_while_on}
use proxy_scope.Prelude.{◌↔◌, refl, some, none, arith, [], false, List, true, ◌∷◌, ◌≡◌, take}
use proxy_scope.Intercept.Delivery.{
  resolve_finishes, lost_returns, resolve_returns, set_settings_releases, held_once, after, client,
}
use proxy_scope.Hold.Client.{run, ending}
use proxy_scope.Hold.Machine
use proxy_scope.Hold.Machine.Account.{Account}
use proxy_scope.Hold.Machine.{sent, tag, lost, done, waiting}
use proxy_scope.Hold.Table.{lookup, insert, delete, select}
use proxy_scope.Http.Message.{verdict_forward, Request, Response}
use proxy_scope.Intercept.{
  turns_off, finish_response, finish_request, Resolution, get, Call, sets, enqueues, expires, taken,
  resolved, sends, received, Settings, Item, pending_request, step, set_settings, enqueue, passes,
  make_item, new, resolve, expire, unmodified, no_note, kind_turns_off, turned_off,
}

abbrev root_request : Request
root_request = record { method = 71 ∷ []; url = 47 ∷ []; header = []; body = [] }

abbrev both_on : Settings
both_on = record { request = true; response = true }

abbrev both_off : Settings
both_off = record { request = false; response = false }

-- One request is held.
abbrev one_held : List Call
one_held = sets both_on ∷ enqueues pending_request root_request none 5 ∷ []

abbrev held_item : Item
held_item = record {
  sum = record {
    id = 1;
    kind = pending_request;
    method = 71 ∷ [];
    url = 47 ∷ [];
    status = 0;
    created = 5;
    expires = some 35;
  };
  req = root_request;
  resp = none;
}

-- The timer wins the select, and the user resolves the item before the goroutine takes it.
abbrev one_lost : List Call
one_lost =
    sets both_on
    ∷ enqueues pending_request root_request none 5
    ∷ expires 1
    ∷ resolved 1 (unmodified no_note)
    ∷ taken 1
    ∷ []

-- The send and the receive that end a waiting goroutine.
abbrev handed_over : List Call
handed_over = sends 1 ∷ received 1 ∷ []

one_held-get : get 1 (after 30 one_held) ≡ some held_item
unfolding run step set_settings enqueue passes make_item new resolve expire get kind_turns_off
    lookup insert delete select tag sent add64 Machine.hold Machine.release Machine.add
    Machine.resolve Machine.step Machine.deliver Machine.leave_from Machine.take_from
    Machine.receive_from
one_held-get = refl

one_held-waits : (after 30 one_held).world.phase 1 ≡ waiting
unfolding run step set_settings enqueue passes make_item new resolve expire get kind_turns_off
    lookup insert delete select tag sent add64 Machine.hold Machine.release Machine.add
    Machine.resolve Machine.step Machine.deliver Machine.leave_from Machine.take_from
    Machine.receive_from
one_held-waits = refl

one_lost-lost : (after 30 one_lost).world.phase 1 ≡ lost
unfolding run step set_settings enqueue passes make_item new resolve expire get kind_turns_off
    lookup insert delete select tag sent add64 Machine.hold Machine.release Machine.add
    Machine.resolve Machine.step Machine.deliver Machine.leave_from Machine.take_from
    Machine.receive_from
one_lost-lost = refl

one_lost-sends : lookup 1 (after 30 (take 4 one_lost)).world.sends ≡ some (unmodified no_note)
unfolding run step set_settings enqueue passes make_item new resolve expire get kind_turns_off
    lookup insert delete select tag sent add64 Machine.hold Machine.release Machine.add
    Machine.resolve Machine.step Machine.deliver Machine.leave_from Machine.take_from
    Machine.receive_from
one_lost-sends = refl

resolve_hands_over :
    (run client (resolve 1 (unmodified no_note) (after 30 one_held)).0 handed_over).world.phase 1
    ≡ done (unmodified no_note)
unfolding run step set_settings enqueue passes make_item new resolve expire get kind_turns_off
    lookup insert delete select tag sent add64 Machine.hold Machine.release Machine.add
    Machine.resolve Machine.step Machine.deliver Machine.leave_from Machine.take_from
    Machine.receive_from
resolve_hands_over = refl

sets_hands_over :
    (run client (set_settings both_off (after 30 one_held)) handed_over).world.phase 1
    ≡ done (unmodified turned_off)
unfolding run step set_settings enqueue passes make_item new resolve expire get kind_turns_off
    lookup insert delete select tag sent add64 Machine.hold Machine.release Machine.add
    Machine.resolve Machine.step Machine.deliver Machine.leave_from Machine.take_from
    Machine.receive_from
sets_hands_over = refl

both_off-turns_off : turns_off (after 30 one_held).settings both_off held_item ≡ true
unfolding run step set_settings enqueue passes make_item new resolve expire get kind_turns_off
    lookup insert delete select tag sent add64 Machine.hold Machine.release Machine.add
    Machine.resolve Machine.step Machine.deliver Machine.leave_from Machine.take_from
    Machine.receive_from
both_off-turns_off = refl

held_once_example : Account (after 30 one_held).world 1
held_once_example = held_once 30 one_held (omega arith) 1

lost_returns_example :
    (r : Resolution) × ((run client (after 30 one_lost) (ending client 1)).world.phase 1 ≡ done r)
lost_returns_example = lost_returns 30 one_lost (omega arith) 1 one_lost-lost

resolve_returns_example : unmodified no_note ≡ unmodified no_note
resolve_returns_example =
    resolve_returns 30 one_held handed_over (omega arith) 1 held_item one_held-get
      (unmodified no_note) (unmodified no_note) resolve_hands_over

resolve_finishes_example :
    (run client
        (run client (resolve 1 (unmodified no_note) (after 30 one_held)).0 (expires 1 ∷ []))
        (ending client 1)).world.phase
      1
    ≡ done (unmodified no_note)
resolve_finishes_example =
    resolve_finishes 30 one_held (expires 1 ∷ []) (omega arith) 1 held_item one_held-get
      (unmodified no_note)

set_settings_releases_example : unmodified turned_off ≡ unmodified turned_off
set_settings_releases_example =
    set_settings_releases 30 one_held handed_over (omega arith) 1 held_item one_held-get both_off
      (unmodified turned_off) both_off-turns_off sets_hands_over

held_while_on_example :
    (passes held_item.sum.kind (after 30 one_held).settings ≡ false) × (held_item.sum.id ≡ 1)
held_while_on_example = held_while_on 30 one_held 1 held_item one_held-get

-- The user changes the body.
abbrev edited_request : Request
edited_request = record root_request { body = 120 ∷ [] }

abbrev request_edit : Resolution
request_edit = record {
  drop = false;
  request = some edited_request;
  response = none;
  note = no_note;
}

finish_request_forwards_example :
    ((finish_request root_request request_edit).1.verdict ≡ verdict_forward)
    × SameRequest (finish_request root_request request_edit).0 edited_request
    × (((finish_request root_request request_edit).1.edited ≡ false)
        ↔ SameRequest edited_request root_request)
finish_request_forwards_example = finish_request_forwards root_request request_edit tt tt refl

abbrev teapot : Response
teapot = record { status_code = 418; header = []; body = [] }

abbrev response_edit : Resolution
response_edit = record {
  drop = false;
  request = none;
  response = some (record teapot { status_code = 200 });
  note = no_note;
}

finish_response_forwards_example :
    ((finish_response teapot response_edit).1.verdict ≡ verdict_forward)
    × SameResponse (finish_response teapot response_edit).0 (record teapot { status_code = 200 })
    × (((finish_response teapot response_edit).1.edited ≡ false)
        ↔ SameResponse (record teapot { status_code = 200 }) teapot)
finish_response_forwards_example = finish_response_forwards teapot response_edit tt tt refl
