-- ===== src/Capture/Session.antt =====
-- internal/sysCapture/session.go: the sessions of the system capture, their idle sweep and their stored
-- bytes. Counters are int64 patterns, times are UnixNano. `saved` are the rows given to SaveChunk. A slice out of
-- range is `none`.
pub mod Prefix
mod Tests
use proxy_scope.Prelude.{
  false, true, [], none, ◌∷◌, take, ◌++◌, length, some, ltb, leb, ◌/◌, Bool, ◌*◌, if◌then◌else◌,
  List, Option, ℕ,
}
use proxy_scope.Prelude.Text.{Bytes}
use proxy_scope.Prelude.Word.{add64, sub64, lt64}
use proxy_scope.Chunk.{Row, first_bytes, Protocol, Direction, relay_up, relay_down}

-- The bytes stored in one direction, and whether the cap was reached.
pub record Tally : Type 0 where
  pub captured : ℕ
  pub cap_reached : Bool

pub record CapSession : Type 0 where
  pub id : ℕ
  pub key : Bytes
  pub client_addr : Bytes
  pub upstream_addr : Bytes
  pub protocol : Protocol
  pub seq : ℕ
  pub last_activity : ℕ
  pub bytes_up : ℕ
  pub bytes_down : ℕ
  pub up : Tally
  pub down : Tally
  pub saved : List Row

-- A session that has stored nothing.
abbrev pub new_session : ℕ → Bytes → Bytes → Bytes → Protocol → ℕ → CapSession
new_session id key client upstream protocol now = record {
  id = id;
  key = key;
  client_addr = client;
  upstream_addr = upstream;
  protocol = protocol;
  seq = 0;
  last_activity = now;
  bytes_up = 0;
  bytes_down = 0;
  up = record { captured = 0; cap_reached = false };
  down = record { captured = 0; cap_reached = false };
  saved = [];
}

abbrev pub seconds : ℕ → ℕ
seconds n = n * 1000000000

unfoldable pub sweep_interval : ℕ → ℕ
sweep_interval idle =
    let iv = idle / 4 in
    let iv' = if ltb iv (seconds 1) then seconds 1 else iv in
    if ltb (seconds 30) iv' then seconds 30 else iv'

unfoldable pub track_bytes : Direction → ℕ → ℕ → CapSession → CapSession
track_bytes relay_up n now sess = record sess {
  bytes_up = add64 sess.bytes_up n;
  last_activity = now;
}
track_bytes relay_down n now sess = record sess {
  bytes_down = add64 sess.bytes_down n;
  last_activity = now;
}

abbrev room_of : ℕ → ℕ → ℕ
room_of max captured = let room = sub64 max captured in if lt64 room 0 then 0 else room

-- What is stored of a payload, and whether the cap is reached now.
unfoldable pub fitting : ℕ → ℕ → Bytes → Option (Bytes × Bool)
fitting max captured payload =
    if lt64 max (add64 captured (length payload))
    then elim (first_bytes (room_of max captured) payload) [ none ↦ none | some s ↦ some (s, true) ]
    else some (payload, false)

abbrev pub tally_of : Direction → CapSession → Tally
tally_of relay_up sess = sess.up
tally_of relay_down sess = sess.down

abbrev pub put_tally : Direction → Tally → CapSession → CapSession
put_tally relay_up t sess = record sess { up = t }
put_tally relay_down t sess = record sess { down = t }

-- The session after SaveChunk was given the part `stored` of a payload.
abbrev pub keep_row : Bytes → Bool → Direction → Bytes → Bool → CapSession → CapSession
keep_row stored capped dir payload edited sess =
    let seq = add64 sess.seq 1 in
    let t' : Tally = record {
      captured = add64 (tally_of dir sess).captured (length stored);
      cap_reached = capped;
    } in
    let row : Row = record {
      seq = seq;
      direction = dir;
      data_ = stored;
      data_size = length payload;
      edited = edited;
      capped = capped;
    } in
    record (put_tally dir t' sess) { seq = seq; saved = sess.saved ++ row ∷ [] }

abbrev pub save : Option (Bytes × Bool) → Direction → Bytes → Bool → CapSession → Option CapSession
save none dir payload edited sess = none
save (some (stored, capped)) dir payload edited sess =
    some (keep_row stored capped dir payload edited sess)

unfoldable pub store_chunk : ℕ → Direction → Bytes → Bool → CapSession → Option CapSession
unfolding fitting
store_chunk max dir payload edited sess =
    if (tally_of dir sess).cap_reached
    then some sess
    else save (fitting max (tally_of dir sess).captured payload) dir payload edited sess
