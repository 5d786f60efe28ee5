-- ===== src/Intercept.antt =====
-- internal/intercept/intercept.go: the live intercept queue of requests and responses, with the types
-- of internal/model/intercept.go that it exchanges with the proxy and the web UI. Times and durations
-- are nanoseconds. The texts of the notes are the constructors of `Note`.
pub mod Delivery
pub mod Pause
pub mod Edits
mod Tests
use proxy_scope.Prelude.{
  ℕ, ◌+◌, Bool, true, false, not, ◌&&◌, List, Option, none, some, map, ltb, if◌then◌else◌,
}
use proxy_scope.Prelude.Text.{Bytes}
use proxy_scope.Prelude.Word.{rank64}
use proxy_scope.Hold.Table.{lookup}
use proxy_scope.Hold.Machine.{
  World, Event, idle, holds, resolves, releases, delivers, leaves, takes, receives, start,
}
use proxy_scope.Hold.Machine
use proxy_scope.Hold.Listing.{sort_by}
use proxy_scope.Http.Message.{
  Request, Response, request_equal, response_equal, Verdict, verdict_forward, verdict_drop,
}

pub record Settings : Type 0 where
  pub request : Bool
  pub response : Bool

pub data Kind : Type 0 where
  pending_request pending_response : Kind

pub record Summary : Type 0 where
  pub id : ℕ
  pub kind : Kind
  pub method : Bytes
  pub url : Bytes
  pub status : ℕ
  pub created : ℕ
  pub expires : Option ℕ

pub data Note : Type 0 where
  no_note turned_off disconnected : Note
  auto_forwarded : ℕ → Note

pub record Resolution : Type 0 where
  pub drop : Bool
  pub request : Option Request
  pub response : Option Response
  pub note : Note

pub record Outcome : Type 0 where
  pub verdict : Verdict
  pub edited : Bool
  pub note : Note

-- `req` is the held request, or the one that led to the held response.
pub record Item : Type 0 where
  pub sum : Summary
  pub req : Request
  pub resp : Option Response

-- `world` is the table with `nextID`, and the goroutines and channels of its items.
pub record Manager : Type 0 where
  pub timeout : ℕ
  pub settings : Settings
  pub world : World Item Resolution

unfoldable pub new : ℕ → Manager
new timeout = record {
  timeout = timeout;
  settings = record { request = false; response = false };
  world = start;
}

-- The test of `enqueue`: nothing is held at a pause point that is off.
unfoldable pub passes : Kind → Settings → Bool
passes pending_request s = not s.request
passes pending_response s = not s.response

abbrev status_of : Option Response → ℕ
status_of none = 0
status_of (some r) = r.status_code

unfoldable pub make_item : ℕ → Kind → Request → Option Response → ℕ → ℕ → Item
make_item timeout kind req resp now id = record {
  sum = record {
    id = id;
    kind = kind;
    method = req.method;
    url = req.url;
    status = status_of resp;
    created = now;
    expires = if ltb 0 timeout then some (now + timeout) else none;
  };
  req = req;
  resp = resp;
}

unfoldable pub enqueue : Kind → Request → Option Response → ℕ → Manager → Manager
unfolding passes
enqueue kind req resp now m =
    if passes kind m.settings
    then m
    else record m { world = Machine.hold (make_item m.timeout kind req resp now) m.world }

abbrev pub unmodified : Note → Resolution
unmodified note = record { drop = false; request = none; response = none; note = note }

-- The items that `SetSettings` removes: those of a pause point that goes from on to off.
unfoldable pub kind_turns_off : Kind → Settings → Settings → Bool
kind_turns_off pending_request old s = old.request && not s.request
kind_turns_off pending_response old s = old.response && not s.response

abbrev pub turns_off : Settings → Settings → Item → Bool
turns_off old s it = kind_turns_off it.sum.kind old s

unfoldable pub set_settings : Settings → Manager → Manager
set_settings s m = record m {
  settings = s;
  world = Machine.release (turns_off m.settings s) (unmodified turned_off) m.world;
}

pub data Error : Type 0 where
  pending_gone : Error

abbrev resolve_error : Option Item → Option Error
resolve_error none = some pending_gone
resolve_error (some it) = none

unfoldable pub resolve : ℕ → Resolution → Manager → Manager × Option Error
resolve id res m =
    (record m { world = Machine.resolve id res m.world }, resolve_error (lookup id m.world.items))

-- The branches of the select in `wait`, each with what it returns if `take` succeeds.
unfoldable pub expire : ℕ → Manager → Manager
expire i m =
    if ltb 0 m.timeout
    then record m {
      world = Machine.step (leaves i (unmodified (auto_forwarded m.timeout))) m.world;
    }
    else m

abbrev pub gone : Resolution
gone = record { drop = true; request = none; response = none; note = disconnected }

unfoldable pub disconnect : ℕ → Manager → Manager
disconnect i m = record m { world = Machine.step (leaves i gone) m.world }

-- The list entries of the held items, oldest first; the argument is the map as it was walked.
unfoldable pub listing : List (ℕ × Item) → List Summary
listing items = sort_by (λ s. rank64 s.id) (map (λ entry. entry.1.sum) items)

unfoldable pub get : ℕ → Manager → Option Item
get id m = lookup id m.world.items

abbrev forwards : Note → Bool → Outcome
forwards note edited = record { verdict = verdict_forward; edited = edited; note = note }

abbrev drops : Note → Outcome
drops note = record { verdict = verdict_drop; edited = false; note = note }

-- What `HoldRequest` and `HoldResponse` make of a resolution: the message afterwards, and the outcome.
unfoldable pub edit_request : Request → Option Request → Note → Request × Outcome
edit_request held none note = (held, forwards note false)
edit_request held (some r) note =
    if not (request_equal r held) then (r, forwards note true) else (held, forwards note false)

unfoldable pub finish_request : Request → Resolution → Request × Outcome
unfolding edit_request
finish_request held res =
    if res.drop then (held, drops res.note) else edit_request held res.request res.note

unfoldable pub edit_response : Response → Option Response → Note → Response × Outcome
edit_response held none note = (held, forwards note false)
edit_response held (some r) note =
    if not (response_equal r held) then (r, forwards note true) else (held, forwards note false)

unfoldable pub finish_response : Response → Resolution → Response × Outcome
unfolding edit_response
finish_response held res =
    if res.drop then (held, drops res.note) else edit_response held res.response res.note

-- The critical sections and the moves of the goroutines, in any order.
pub data Call : Type 0 where
  sets : Settings → Call
  enqueues : Kind → Request → Option Response → ℕ → Call
  resolved : ℕ → Resolution → Call
  expires disconnects sends taken received : ℕ → Call

unfoldable pub step : Manager → Call → Manager
step m (sets s) = set_settings s m
step m (enqueues kind req resp now) = enqueue kind req resp now m
step m (resolved id res) = (resolve id res m).0
step m (expires i) = expire i m
step m (disconnects i) = disconnect i m
step m (sends i) = record m { world = Machine.step (delivers i) m.world }
step m (taken i) = record m { world = Machine.step (takes i) m.world }
step m (received i) = record m { world = Machine.step (receives i) m.world }
