-- ===== src/Relay/Hold.antt =====
-- internal/relay/hold.go: the pause point of the relay, with toggles for each target.
pub mod Delivery
pub mod Pause
mod Tests
use proxy_scope.Prelude.Word.{rank64}
use proxy_scope.Hold.Listing.{sort_by}
use proxy_scope.Http.Message.{verdict_drop, verdict_forward}
use proxy_scope.Hold.Table.{lookup}
use proxy_scope.Hold.Machine.{receives, start, takes, World, leaves, delivers}
use proxy_scope.Prelude.Text.{equal, Bytes}
use proxy_scope.Prelude.{
  map, ◌+◌, true, none, length, false, some, ◌&&◌, not, ltb, Option, List, if◌then◌else◌, ℕ, Bool,
}
use proxy_scope.Hold.Machine
use proxy_scope.Chunk.{
  Direction, relay_up, relay_down, Chunk, Settings, PendingSummary, Note, turned_off, shutting_down,
  auto_forwarded, Resolution, Outcome, unmodified,
}

-- The snapshot that is held, for the comparison when it is resolved.
pub record HeldChunk : Type 0 where
  pub sum : PendingSummary
  pub chunk : Chunk

pub record HoldQueue : Type 0 where
  pub timeout : ℕ
  pub settings : Bytes → Settings
  pub world : World HeldChunk Resolution

unfoldable pub new_hold_queue : ℕ → HoldQueue
new_hold_queue timeout = record {
  timeout = timeout;
  settings = λ target. record { up = false; down = false };
  world = start;
}

-- `enqueue` holds nothing in a direction that is off for the target.
unfoldable pub passes : Direction → Settings → Bool
passes relay_up s = not s.up
passes relay_down s = not s.down

unfoldable pub make_item : ℕ → Bytes → ℕ → Direction → Chunk → ℕ → ℕ → HeldChunk
make_item timeout target session_id dir chunk now id = record {
  sum = record {
    id = id;
    target = target;
    session_id = session_id;
    direction = dir;
    size = length chunk.bytes;
    created = now;
    expires = if ltb 0 timeout then some (now + timeout) else none;
  };
  chunk = chunk;
}

unfoldable pub enqueue : Bytes → ℕ → Direction → Chunk → ℕ → HoldQueue → HoldQueue
enqueue target session_id dir chunk now q = if passes dir (q.settings target) then q else record q {
  world = Machine.hold (make_item q.timeout target session_id dir chunk now) q.world;
}

unfoldable pub turns_off_in : Direction → Settings → Settings → Bool
turns_off_in relay_up old s = old.up && not s.up
turns_off_in relay_down old s = old.down && not s.down

-- The chunks that `SetSettings` removes: those of the target, in a direction that goes off.
abbrev pub turns_off : Bytes → Settings → Settings → HeldChunk → Bool
turns_off target old s it =
    if not (equal it.sum.target target) then false else turns_off_in it.sum.direction old s

abbrev pub assign : Bytes → Settings → (Bytes → Settings) → Bytes → Settings
assign target s f t = if equal target t then s else f t

unfoldable pub set_settings : Bytes → Settings → HoldQueue → HoldQueue
set_settings target s q = record q {
  settings = assign target s q.settings;
  world = Machine.release (turns_off target (q.settings target) s) (unmodified turned_off) q.world;
}

pub data Error : Type 0 where
  pending_gone : Error

abbrev resolve_error : Option HeldChunk → Option Error
resolve_error none = some pending_gone
resolve_error (some it) = none

unfoldable pub resolve : ℕ → Resolution → HoldQueue → HoldQueue × Option Error
resolve id res q =
    (record q { world = Machine.resolve id res q.world }, resolve_error (lookup id q.world.items))

-- The branches of the select in `wait`, each with what it returns if `take` succeeds.
unfoldable pub expire : ℕ → HoldQueue → HoldQueue
expire i q =
    if ltb 0 q.timeout
    then record q {
      world = Machine.step (leaves i (unmodified (auto_forwarded q.timeout))) q.world;
    }
    else q

unfoldable pub shut_down : ℕ → HoldQueue → HoldQueue
shut_down i q = record q { world = Machine.step (leaves i (unmodified shutting_down)) q.world }

unfoldable pub listing : List (ℕ × HeldChunk) → List PendingSummary
listing items = sort_by (λ s. rank64 s.id) (map (λ entry. entry.1.sum) items)

unfoldable pub get : ℕ → HoldQueue → Option HeldChunk
get id q = lookup id q.world.items

abbrev forwards : Note → Bool → Outcome
forwards note edited = record { verdict = verdict_forward; edited = edited; note = note }

unfoldable pub edit_chunk : Chunk → Option Chunk → Note → Chunk × Outcome
edit_chunk held none note = (held, forwards note false)
edit_chunk held (some c) note =
    if not (equal c.bytes held.bytes) then (c, forwards note true) else (held, forwards note false)

-- What `Hold` makes of a resolution: the chunk afterwards, and the outcome.
unfoldable pub finish : Chunk → Resolution → Chunk × Outcome
unfolding edit_chunk
finish held res =
    if res.drop
    then (held, record { verdict = verdict_drop; edited = false; note = res.note })
    else edit_chunk held res.chunk res.note

-- The critical sections and the moves of the goroutines, in any order.
pub data Call : Type 0 where
  sets : Bytes → Settings → Call
  enqueues : Bytes → ℕ → Direction → Chunk → ℕ → Call
  resolved : ℕ → Resolution → Call
  expires shuts sends taken received : ℕ → Call

unfoldable pub step : HoldQueue → Call → HoldQueue
step q (sets target s) = set_settings target s q
step q (enqueues target session_id dir chunk now) = enqueue target session_id dir chunk now q
step q (resolved id res) = (resolve id res q).0
step q (expires i) = expire i q
step q (shuts i) = shut_down i q
step q (sends i) = record q { world = Machine.step (delivers i) q.world }
step q (taken i) = record q { world = Machine.step (takes i) q.world }
step q (received i) = record q { world = Machine.step (receives i) q.world }
