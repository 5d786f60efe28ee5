-- ===== src/Capture/Session/Tests.antt =====
-- A session with packets in both directions.
use proxy_scope.Prelude.{true, arith, false, [], Bool, ◌∷◌, some, List, ◌≡◌}
use proxy_scope.Chunk.{relay_tcp, Direction, relay_up, relay_down}
use proxy_scope.Capture.Session.{new_session, Bytes, CapSession}
use proxy_scope.Capture.Session.Prefix.{store_all, stored_bytes, stored_prefix}

abbrev three_packets : List (Direction × Bytes × Bool)
three_packets =
    (relay_up, 1 ∷ 2 ∷ [], false) ∷ (relay_down, 7 ∷ [], false) ∷ (relay_up, 3 ∷ 4 ∷ [], true) ∷ []

stored_prefix_example :
    (sess : CapSession) × (store_all 3 three_packets (new_session 1 [] [] [] relay_tcp 0)
      ≡ some sess)
    × (stored_bytes relay_up sess.saved ≡ 1 ∷ 2 ∷ 3 ∷ [])
    × (stored_bytes relay_down sess.saved ≡ 7 ∷ [])
stored_prefix_example =
    stored_prefix 3 1 0 [] [] [] relay_tcp three_packets (omega arith) (omega arith) (omega arith)
