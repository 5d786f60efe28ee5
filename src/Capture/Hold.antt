-- ===== src/Capture/Hold.antt =====
-- internal/sysCapture/hold.go: the pause point of the system capture, with one pair of toggles, and
-- with the check that an edit keeps the length of a TCP payload.
pub mod Delivery
pub mod Pause
mod Tests
use mathlib.Core.Option.{none}
use proxy_scope.Prelude.Word.{rank64}
use proxy_scope.Http.Message.{verdict_forward, verdict_drop}
use proxy_scope.Prelude.Text.{equal, Bytes}
use proxy_scope.Hold.Listing.{sort_by}
use proxy_scope.Prelude.{
  ◌+◌, map, true, ◌==◌, none, length, ◌&&◌, ltb, not, false, some, if◌then◌else◌, Option, Bool,
  List, ℕ,
}
use proxy_scope.Hold.Machine.{start, receives, World, takes, leaves, delivers}
use proxy_scope.Hold.Machine
use proxy_scope.Hold.Table.{lookup}
use proxy_scope.Chunk.{
  Direction, relay_up, relay_down, Protocol, relay_tcp, relay_udp, Chunk, Settings, PendingSummary,
  Note, turned_off, shutting_down, auto_forwarded, Resolution, Outcome, unmodified,
}

pub record HeldPacket : Type 0 where
  pub sum : PendingSummary
  pub chunk : Chunk
  pub protocol : Protocol

pub record HoldQueue : Type 0 where
  pub timeout : ℕ
  pub settings : Settings
  pub world : World HeldPacket Resolution

unfoldable pub new_hold_queue : ℕ → HoldQueue
new_hold_queue timeout = record {
  timeout = timeout;
  settings = record { up = false; down = false };
  world = start;
}

unfoldable pub passes : Direction → Settings → Bool
passes relay_up s = not s.up
passes relay_down s = not s.down

unfoldable pub make_item : ℕ → Bytes → ℕ → Direction → Protocol → Chunk → ℕ → ℕ → HeldPacket
make_item timeout filter session_id dir protocol chunk now id = record {
  sum = record {
    id = id;
    target = filter;
    session_id = session_id;
    direction = dir;
    size = length chunk.bytes;
    created = now;
    expires = if ltb 0 timeout then some (now + timeout) else none;
  };
  chunk = chunk;
  protocol = protocol;
}

unfoldable pub enqueue : ℕ → Direction → Protocol → Bytes → Chunk → ℕ → HoldQueue → HoldQueue
enqueue session_id dir protocol filter chunk now q = if passes dir q.settings then q else record q {
  world = Machine.hold (make_item q.timeout filter session_id dir protocol chunk now) q.world;
}

unfoldable pub turns_off_in : Direction → Settings → Settings → Bool
turns_off_in relay_up old s = old.up && not s.up
turns_off_in relay_down old s = old.down && not s.down

-- The packets that `SetSettings` removes: those of a direction that goes off.
abbrev pub turns_off : Settings → Settings → HeldPacket → Bool
turns_off old s it = turns_off_in it.sum.direction old s

unfoldable pub set_settings : Settings → HoldQueue → HoldQueue
set_settings s q = record q {
  settings = s;
  world = Machine.release (turns_off q.settings s) (unmodified turned_off) q.world;
}

pub data Error : Type 0 where
  pending_gone tcp_payload_length_mismatch : Error

-- The edit would change the length of a TCP payload.
unfoldable pub chunk_mismatch : Protocol → Option Chunk → Chunk → Bool
chunk_mismatch relay_tcp (some c) held = not (length c.bytes == length held.bytes)
chunk_mismatch relay_tcp none held = false
chunk_mismatch relay_udp c held = false

abbrev pub mismatch : Option HeldPacket → Resolution → Bool
mismatch none res = false
mismatch (some it) res = chunk_mismatch it.protocol res.chunk it.chunk

abbrev resolve_found : Option HeldPacket → ℕ → Resolution → HoldQueue → HoldQueue × Option Error
resolve_found none id res q = (q, some pending_gone)
resolve_found (some it) id res q =
    if chunk_mismatch it.protocol res.chunk it.chunk
    then (q, some tcp_payload_length_mismatch)
    else (record q { world = Machine.resolve id res q.world }, none)

unfoldable pub resolve : ℕ → Resolution → HoldQueue → HoldQueue × Option Error
resolve id res q = resolve_found (lookup id q.world.items) id res q

unfoldable pub expire : ℕ → HoldQueue → HoldQueue
expire i q =
    if ltb 0 q.timeout
    then record q {
      world = Machine.step (leaves i (unmodified (auto_forwarded q.timeout))) q.world;
    }
    else q

unfoldable pub shut_down : ℕ → HoldQueue → HoldQueue
shut_down i q = record q { world = Machine.step (leaves i (unmodified shutting_down)) q.world }

unfoldable pub listing : List (ℕ × HeldPacket) → List PendingSummary
listing items = sort_by (λ s. rank64 s.id) (map (λ entry. entry.1.sum) items)

unfoldable pub get : ℕ → HoldQueue → Option HeldPacket
get id q = lookup id q.world.items

abbrev forwards : Note → Bool → Outcome
forwards note edited = record { verdict = verdict_forward; edited = edited; note = note }

unfoldable pub edit_chunk : Chunk → Option Chunk → Note → Chunk × Outcome
edit_chunk held none note = (held, forwards note false)
edit_chunk held (some c) note =
    if not (equal c.bytes held.bytes) then (c, forwards note true) else (held, forwards note false)

-- What `Hold` makes of a resolution: the payload afterwards, and the outcome.
unfoldable pub finish : Chunk → Resolution → Chunk × Outcome
unfolding edit_chunk
finish held res =
    if res.drop
    then (held, record { verdict = verdict_drop; edited = false; note = res.note })
    else edit_chunk held res.chunk res.note

pub data Call : Type 0 where
  sets : Settings → Call
  enqueues : ℕ → Direction → Protocol → Bytes → Chunk → ℕ → Call
  resolved : ℕ → Resolution → Call
  expires shuts sends taken received : ℕ → Call

unfoldable pub step : HoldQueue → Call → HoldQueue
step q (sets s) = set_settings s q
step q (enqueues session_id dir protocol filter chunk now) =
    enqueue session_id dir protocol filter chunk now q
step q (resolved id res) = (resolve id res q).0
step q (expires i) = expire i q
step q (shuts i) = shut_down i q
step q (sends i) = record q { world = Machine.step (delivers i) q.world }
step q (taken i) = record q { world = Machine.step (takes i) q.world }
step q (received i) = record q { world = Machine.step (receives i) q.world }
