-- ===== src/Chunk.antt =====
-- internal/model/relay.go: chunks of raw bytes, and what the hold queues of the relay and of the
-- system capture exchange with the web UI. Times are nanoseconds; the texts of the notes are the
-- constructors of `Note`.
use proxy_scope.Prelude.{some, take, length, leb, if◌then◌else◌, ℕ, Bool, false, Option, none}
use proxy_scope.Prelude.Text.{Bytes}
use proxy_scope.Http.Message.{Verdict}

pub data Protocol : Type 0 where
  relay_tcp relay_udp : Protocol

pub data Direction : Type 0 where
  relay_up relay_down : Direction

pub record Chunk : Type 0 where
  pub bytes : Bytes

-- Both `false` at first.
pub record Settings : Type 0 where
  pub up : Bool
  pub down : Bool

pub record PendingSummary : Type 0 where
  pub id : ℕ
  pub target : Bytes
  pub session_id : ℕ
  pub direction : Direction
  pub size : ℕ
  pub created : ℕ
  pub expires : Option ℕ

pub data Note : Type 0 where
  no_note turned_off shutting_down : Note
  auto_forwarded : ℕ → Note

pub record Resolution : Type 0 where
  pub drop : Bool
  pub chunk : Option Chunk
  pub note : Note

pub record Outcome : Type 0 where
  pub verdict : Verdict
  pub edited : Bool
  pub note : Note

abbrev pub unmodified : Note → Resolution
unmodified note = record { drop = false; chunk = none; note = note }

-- A chunk as it is stored; `capped` stands for the note that the cap was reached.
pub record Row : Type 0 where
  pub seq : ℕ
  pub direction : Direction
  pub data_ : Bytes
  pub data_size : ℕ
  pub edited : Bool
  pub capped : Bool

-- A slice out of range is `none`.
-- data[:n].
abbrev pub first_bytes : ℕ → Bytes → Option Bytes
first_bytes n s = if leb n (length s) then some (take n s) else none
