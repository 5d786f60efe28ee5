-- ===== src/Outbound/Tests.antt =====
-- A body in two writes.
use proxy_scope.Prelude.{arith, [], ◌∷◌, List, ◌≡◌}
use proxy_scope.Outbound.{Bytes, new_capture}
use proxy_scope.Outbound.Prefix.{write_all, capture_prefix}

abbrev two_parts : List Bytes
two_parts = (1 ∷ 2 ∷ []) ∷ (3 ∷ 4 ∷ []) ∷ []

capture_prefix_example :
    ((write_all two_parts (new_capture 3)).buf ≡ 1 ∷ 2 ∷ 3 ∷ [])
    × ((write_all two_parts (new_capture 3)).total ≡ 4)
capture_prefix_example = capture_prefix 3 two_parts (omega arith) (omega arith)
