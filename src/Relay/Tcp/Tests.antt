-- ===== src/Relay/Tcp/Tests.antt =====
-- A connection with chunks in both directions, one of them edited and one dropped.
use proxy_scope.Prelude.Word.{int64_limit, add64, sub64, lt64}
use proxy_scope.Prelude.{◌<◌, arith, List, ◌≡◌, some, none, [], ◌∷◌, take, true, false, length}
use proxy_scope.Prelude.Text.{equal, Bytes}
use proxy_scope.Chunk.{Direction, relay_up, relay_down, no_note}
use proxy_scope.Capture.Session.Prefix.{store_all, stored_bytes, traffic}
use proxy_scope.Relay.Tcp.{
  is_clean_close, Conn, Round, new_conn, pump_all, eof, hold, pump, relay_round, keep_chunk,
  store_chunk, stored_part,
}
use proxy_scope.Relay.Tcp.Stored.{
  view, view_of, held_chunks, chunk_of, pump_all-store_all, relay_stored_prefix,
}
use proxy_scope.Relay.Hold.{finish, edit_chunk}

abbrev plain : Bytes → Round
plain data_ = record { bytes = data_; read_error = none; resolution = none; write_error = none }

abbrev rounds : List (Direction × Round)
rounds =
    (relay_up, plain (1 ∷ 2 ∷ []))
    ∷ (
      relay_down,
      record (plain (7 ∷ [])) {
        resolution =
            some (record {
              drop = false;
              chunk = some (record { bytes = 8 ∷ 9 ∷ [] });
              note = no_note;
            });
      },
    )
    ∷ (
      relay_up,
      record (plain (3 ∷ [])) {
        resolution = some (record { drop = true; chunk = none; note = no_note });
      },
    )
    ∷ (relay_up, record (plain []) { read_error = some eof })
    ∷ (relay_up, plain (4 ∷ []))
    ∷ []

pump_all-store_all_example :
    view_of (pump_all 2 rounds new_conn)
    ≡ store_all 2 (held_chunks 2 rounds new_conn) (view new_conn)
pump_all-store_all_example = pump_all-store_all 2 rounds new_conn

up_is_small : length (traffic relay_up (held_chunks 2 rounds new_conn)) < int64_limit
unfolding held_chunks chunk_of hold finish edit_chunk pump relay_round keep_chunk store_chunk
    stored_part new_conn add64 sub64 lt64 equal is_clean_close
up_is_small = omega arith

down_is_small : length (traffic relay_down (held_chunks 2 rounds new_conn)) < int64_limit
unfolding held_chunks chunk_of hold finish edit_chunk pump relay_round keep_chunk store_chunk
    stored_part new_conn add64 sub64 lt64 equal is_clean_close
down_is_small = omega arith

relay_stored_prefix_example :
    (c : Conn) × (pump_all 2 rounds new_conn ≡ some c)
    × (stored_bytes relay_up c.saved ≡ take 2 (traffic relay_up (held_chunks 2 rounds new_conn)))
    × (stored_bytes relay_down c.saved
        ≡ take 2 (traffic relay_down (held_chunks 2 rounds new_conn)))
relay_stored_prefix_example = relay_stored_prefix 2 rounds (omega arith) up_is_small down_is_small
