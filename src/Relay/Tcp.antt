-- ===== src/Relay/Tcp.antt =====
-- internal/relay/tcp.go and storeChunk of relay.go: a TCP connection through the relay. Its two pumps share the sequence
-- counter; a step is one round of the loop of one pump, whose hold has the given resolution. `saved` are the rows given to SaveChunk. A
-- slice out of range is `none`.
pub mod Stored
mod Tests
use proxy_scope.Prelude.{
  ltb, ℕ, Bool, List, Option, none, some, true, false, [], ◌∷◌, ◌++◌, length, if◌then◌else◌,
}
use proxy_scope.Prelude.Text.{Bytes, codes}
use proxy_scope.Prelude.Word.{add64, sub64, lt64}
use proxy_scope.Http.Message.{verdict_drop, verdict_forward}
use proxy_scope.Chunk.{
  Direction, relay_up, relay_down, Row, first_bytes, Chunk, Resolution, Outcome, no_note,
}
use proxy_scope.Relay.Hold.{finish}

pub data NetError : Type 0 where
  eof closed : NetError
  broken : Bytes → NetError

unfoldable pub is_clean_close : NetError → Bool
is_clean_close eof = true
is_clean_close closed = true
is_clean_close (broken e) = false

-- The variables of `pump`, what it wrote, and its error once it returned.
pub record Pump : Type 0 where
  pub total : ℕ
  pub captured : ℕ
  pub cap_reached : Bool
  pub written : List Bytes
  pub result : Option (Option NetError)

pub record Conn : Type 0 where
  pub seq : ℕ
  pub saved : List Row
  pub up : Pump
  pub down : Pump

-- One Read with what follows it: its bytes and its error, the resolution if the chunk is held, the error of the Write.
pub record Round : Type 0 where
  pub bytes : Bytes
  pub read_error : Option NetError
  pub resolution : Option Resolution
  pub write_error : Option NetError

abbrev new_pump : Pump
new_pump = record { total = 0; captured = 0; cap_reached = false; written = []; result = none }

unfoldable pub new_conn : Conn
new_conn = record { seq = 0; saved = []; up = new_pump; down = new_pump }

abbrev pub pump_of : Direction → Conn → Pump
pump_of relay_up c = c.up
pump_of relay_down c = c.down

abbrev pub put_pump : Direction → Pump → Conn → Conn
put_pump relay_up p c = record c { up = p }
put_pump relay_down p c = record c { down = p }

-- What is stored of the data, and whether the cap is reached.
unfoldable pub stored_part : ℕ → ℕ → Bytes → Option Bytes × Bool
stored_part max captured data_ =
    let room = sub64 max captured in
    if lt64 max (add64 captured (length data_))
    then (first_bytes (if lt64 room 0 then 0 else room) data_, true)
    else (some data_, false)

unfoldable pub store_chunk : ℕ → Direction → Bytes → Bool → Conn → Option Conn
unfolding stored_part
store_chunk max dir data_ edited c =
    let r = stored_part max (pump_of dir c).captured data_ in
    elim r.0 [
      | none ↦ none
      | some stored ↦
          let seq = add64 c.seq 1 in
          let row : Row = record {
            seq = seq;
            direction = dir;
            data_ = stored;
            data_size = length data_;
            edited = edited;
            capped = r.1;
          } in
          let p = record (pump_of dir c) {
            captured = add64 (pump_of dir c).captured (length stored);
            cap_reached = r.1;
          } in
          some (record (put_pump dir p c) { seq = seq; saved = c.saved ++ row ∷ [] })
    ]

-- What `Hold` returns, and the chunk that it leaves.
unfoldable pub hold : Chunk → Option Resolution → Chunk × Outcome
unfolding finish
hold chunk none = (chunk, record { verdict = verdict_forward; edited = false; note = no_note })
hold chunk (some res) = finish chunk res

-- `if rerr != nil { ... }` at the end of a round.
abbrev pub end_round : Option NetError → Pump → Pump
end_round none p = p
end_round (some e) p = record p { result = some (if is_clean_close e then none else some e) }

abbrev pub write_chunk : Round → Bytes → Pump → Pump
write_chunk r data_ p = elim r.write_error [
  | some e ↦ record p { result = some (some e) }
  | none ↦ end_round r.read_error (record p { written = p.written ++ data_ ∷ [] })
]

abbrev pub relay_chunk : Round → Chunk × Outcome → Pump → Pump
relay_chunk r h p = elim h.1.verdict [
  | verdict_drop ↦ end_round r.read_error p
  | verdict_forward ↦ write_chunk r h.0.bytes p
]

-- Storing a chunk unless the cap was reached.
unfoldable pub keep_chunk : ℕ → Direction → Chunk × Outcome → Conn → Option Conn
unfolding store_chunk
keep_chunk max dir h c =
    if (pump_of dir c).cap_reached then some c else store_chunk max dir h.0.bytes h.1.edited c

abbrev pub on_pump : Direction → (Pump → Pump) → Conn → Conn
on_pump dir f c = put_pump dir (f (pump_of dir c)) c

abbrev pub count_bytes : ℕ → Pump → Pump
count_bytes n p = record p { total = add64 p.total n }

-- The rest of a round that read something.
unfoldable pub relay_round : ℕ → Direction → Round → Conn → Option Conn
unfolding hold keep_chunk is_clean_close
relay_round max dir r c =
    let h = hold (record { bytes = r.bytes }) r.resolution in
    elim (keep_chunk max dir h (on_pump dir (count_bytes (length r.bytes)) c)) [
      | none ↦ none
      | some c' ↦ some (on_pump dir (relay_chunk r h) c')
    ]

abbrev pub has_returned : Option (Option NetError) → Bool
has_returned none = false
has_returned (some e) = true

unfoldable pub pump : ℕ → Direction → Round → Conn → Option Conn
unfolding relay_round is_clean_close
pump max dir r c =
    if has_returned (pump_of dir c).result
    then some c
    else if ltb 0 (length r.bytes)
    then relay_round max dir r c
    else some (on_pump dir (end_round r.read_error) c)

-- The rounds of both pumps, as they follow each other.
unfoldable pub pump_all : ℕ → List (Direction × Round) → Conn → Option Conn
unfolding pump
pump_all max [] c = some c
pump_all max (r ∷ rs) c = elim (pump max r.0 r.1 c) [ none ↦ none | some c' ↦ pump_all max rs c' ]

-- The error that a session is closed with, once both pumps have returned.
abbrev returned_error : Option (Option NetError) → Option NetError
returned_error none = none
returned_error (some e) = e

pub data Side : Type 0 where
  client_side upstream_side : Side

abbrev side_error : Side → Option NetError → Option (Side × NetError)
side_error side none = none
side_error side (some e) = some (side, e)

unfoldable pub session_error : Conn → Option (Side × NetError)
session_error c = elim (returned_error c.up.result) [
  | some e ↦ some (client_side, e)
  | none ↦ side_error upstream_side (returned_error c.down.result)
]
