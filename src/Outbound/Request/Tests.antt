-- ===== src/Outbound/Request/Tests.antt =====
-- A header with hop-by-hop entries, and bounded reads.
use proxy_scope.Http.Header.{values}
use proxy_scope.Outbound.Request.Listed.{joined_values, any_lists_name, remove_hop_by_hop_listed}
use proxy_scope.Prelude.Text.{
  equal, byte_to_lower, byte_to_upper, is_lower, is_upper, is_digit, has_byte,
}
use proxy_scope.Http.Header.{canonical, all_token, capitalise, is_token_byte}
use proxy_scope.Prelude.Word.{add64, lt64}
use proxy_scope.Prelude.{List, refl, ◌-◌, arith, ◌^◌, ◌≡◌, none, [], ◌∷◌, if◌then◌else◌, ◌||◌}
use proxy_scope.Outbound.Request.{
  Bytes, lt64, add64, codes, Stream, read_up_to, read_whole, remove_hop_by_hop, hop_by_hop,
}
use proxy_scope.Outbound.Request.Reads.{ReadsTo, read_up_to-ReadsTo}
use proxy_scope.Outbound.Request.Hop.{named}
use proxy_scope.Http.Header.{Header, values}

abbrev hops : Header
hops =
    (codes "Connection", codes "close, X-Trace" ∷ [])
    ∷ (codes "X-Trace", codes "7" ∷ [])
    ∷ (codes "Accept", codes "*/*" ∷ [])
    ∷ []

abbrev hops_elements : List (Bytes × List Bytes)
hops_elements = (codes "close", codes " X-Trace" ∷ []) ∷ []

hops-values : values hops (codes "Connection") ≡ joined_values hops_elements
unfolding canonical all_token capitalise equal is_token_byte byte_to_lower byte_to_upper is_lower
    is_upper is_digit has_byte values
hops-values = refl

remove_hop_by_hop_listed_example : values (remove_hop_by_hop hops) (codes "X-Trace") ≡ (
    if named (codes "X-Trace") hop_by_hop || any_lists_name (codes "X-Trace") hops_elements
    then []
    else values hops (codes "X-Trace"))
remove_hop_by_hop_listed_example =
    remove_hop_by_hop_listed hops hops_elements (codes "X-Trace") hops-values refl

abbrev four_bytes : Stream
four_bytes = record { bytes = 1 ∷ 2 ∷ 3 ∷ 4 ∷ []; fail = none }

read_up_to-ReadsTo_example : ReadsTo 2 four_bytes (read_up_to 2 four_bytes)
read_up_to-ReadsTo_example = read_up_to-ReadsTo 2 four_bytes (omega arith)

-- At the greatest limit the sum that bounds the read wraps around.
read_up_to-max : read_up_to (2 ^ 63 - 1) four_bytes ≡ read_whole []
unfolding read_up_to add64 lt64
read_up_to-max = refl
