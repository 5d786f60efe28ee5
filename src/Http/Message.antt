-- ===== src/Http/Message.antt =====
-- internal/model/intercept.go: the messages that are held, and their equality. `Clone` makes a deep
-- copy, which a value is already.
pub mod Same
use proxy_scope.Prelude.{
  ℕ, Bool, true, false, not, ◌&&◌, ◌||◌, List, [], ◌∷◌, Option, none, some, ◌==◌, if◌then◌else◌,
  length,
}
use proxy_scope.Prelude.Text.{Bytes, equal}
use proxy_scope.Http.Header.{Header, lookup}

pub record Request : Type 0 where
  pub method : Bytes
  pub url : Bytes
  pub header : Header
  pub body : Bytes

pub record Response : Type 0 where
  pub status_code : ℕ
  pub header : Header
  pub body : Bytes

unfoldable pub values_equal : List Bytes → List Bytes → Bool
unfolding equal
values_equal [] [] = true
values_equal [] (y ∷ ys) = false
values_equal (x ∷ xs) [] = false
values_equal (x ∷ xs) (y ∷ ys) = equal x y && values_equal xs ys

abbrev pub found_equal : List Bytes → Option (List Bytes) → Bool
found_equal av none = false
found_equal av (some bv) = values_equal av bv

-- The loop of `headersEqual` over the first map.
unfoldable pub entries_equal : Header → Header → Bool
unfolding values_equal lookup
entries_equal [] b = true
entries_equal ((k, av) ∷ a) b = found_equal av (lookup k b) && entries_equal a b

unfoldable pub headers_equal : Header → Header → Bool
unfolding entries_equal
headers_equal a b = if not (length a == length b) then false else entries_equal a b

unfoldable pub request_equal : Request → Request → Bool
unfolding equal headers_equal
request_equal r o =
    equal r.method o.method
    && equal r.url o.url
    && headers_equal r.header o.header
    && equal r.body o.body

unfoldable pub response_equal : Response → Response → Bool
unfolding equal headers_equal
response_equal r o =
    r.status_code == o.status_code && headers_equal r.header o.header && equal r.body o.body

pub data Verdict : Type 0 where
  verdict_forward verdict_drop : Verdict
