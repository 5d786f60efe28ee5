-- ===== src/Http/Message/Same.antt =====
-- What the equality of header maps decides: that every name has the same values.
use proxy_scope.Prelude.{
  suc, ◌≡◌, ◌↔◌, refl, true, List, [], ◌∷◌, none, some, arith, length, Option-cases, inl, inr,
}
use proxy_scope.Prelude.Text.{Bytes, equal_iff, equal_refl}
use proxy_scope.Http.Header.{Header, lookup, delete, lookup-delete}
use proxy_scope.Http.Message.{
  Request, Response, values_equal, entries_equal, headers_equal, request_equal, response_equal,
}

-- Every name stands once.
abbrev pub IsMap : Header → Type 0
IsMap [] = Unit {0}
IsMap ((k, v) ∷ h) = (lookup k h ≡ none) × IsMap h

abbrev pub SameHeader : Header → Header → Type 0
SameHeader a b = (k : Bytes) → lookup k a ≡ lookup k b

values_equal_iff : (a b : List Bytes) → (values_equal a b ≡ true) ↔ (a ≡ b)
unfolding values_equal
values_equal_iff [] [] = ground arith
values_equal_iff [] (y ∷ ys) = ground arith
values_equal_iff (x ∷ xs) [] = ground arith
values_equal_iff (x ∷ xs) (y ∷ ys) = ground (arith, equal_iff x y, values_equal_iff xs ys)

delete-IsMap : (k : Bytes) (h : Header) → IsMap h → IsMap (delete k h)
unfolding delete lookup
delete-IsMap k [] m = tt
delete-IsMap k ((j, v) ∷ h) m = ground (arith, lookup-delete k j h, delete-IsMap k h m.1)

delete_absent : (k : Bytes) (h : Header) → lookup k h ≡ none → delete k h ≡ h
unfolding delete lookup
delete_absent k [] e = refl
delete_absent k ((j, v) ∷ h) e = ground (arith, delete_absent k h)

-- Taking out a name that is there makes a map shorter by one.
length-delete :
    (k : Bytes) (h : Header) (v : List Bytes)
    → IsMap h
    → lookup k h ≡ some v
    → suc (length (delete k h)) ≡ length h
unfolding delete lookup
length-delete k [] v m e = ground arith
length-delete k ((j, w) ∷ h) v m e =
    ground (arith, equal_iff j k, delete_absent k h, length-delete k h v m.1)

entries_equal-delete :
    (k : Bytes) (a b : Header)
    → lookup k a ≡ none
    → entries_equal a b ≡ entries_equal a (delete k b)
unfolding entries_equal lookup
entries_equal-delete k [] b e = refl
entries_equal-delete k ((j, v) ∷ a) b e =
    ground (arith, equal_iff k j, equal_iff j k, lookup-delete k j b, entries_equal-delete k a b)

entries_equal_sound :
    (a b : Header)
    → IsMap a
    → IsMap b
    → length a ≡ length b
    → entries_equal a b ≡ true
    → SameHeader a b
unfolding entries_equal lookup
entries_equal_sound [] [] ma mb l e k = refl
entries_equal_sound [] (y ∷ b) ma mb l e k = absurd (omega arith)
entries_equal_sound ((j, v) ∷ a) b ma mb l e k = elim (Option-cases (lookup j b)) [
  | inl n ↦ ground arith
  | inr (w, n) ↦ ground (
    arith,
    values_equal_iff v w,
    length-delete j b w mb n,
    equal_iff j k,
    lookup-delete j k b,
    entries_equal-delete j a b ma.0,
    entries_equal_sound a (delete j b) ma.1 (delete-IsMap j b mb)
        (ground (arith, length-delete j b w mb n)) (ground (arith, entries_equal-delete j a b ma.0))
        k,
  )
]

SameHeader-tail :
    (j : Bytes) (v : List Bytes) (a b : Header)
    → lookup j a ≡ none
    → SameHeader ((j, v) ∷ a) b
    → SameHeader a (delete j b)
unfolding lookup
SameHeader-tail j v a b n s k = ground (arith, equal_iff j k, lookup-delete j k b, s k)

entries_equal_complete :
    (a b : Header)
    → IsMap a
    → IsMap b
    → SameHeader a b
    → (length a ≡ length b) × (entries_equal a b ≡ true)
unfolding entries_equal lookup
entries_equal_complete [] [] ma mb s = (refl, refl)
entries_equal_complete [] ((k, v) ∷ b) ma mb s = ground (arith, s k, equal_refl k)
entries_equal_complete ((j, v) ∷ a) b ma mb s = ground (
  arith,
  s j,
  equal_refl j,
  values_equal_iff v v,
  length-delete j b v mb,
  entries_equal-delete j a b ma.0,
  entries_equal_complete a (delete j b) ma.1 (delete-IsMap j b mb) (SameHeader-tail j v a b ma.0 s),
)

-- `headersEqual` compares the number of names and then walks one map: on maps that decides whether
-- they have the same values under every name.
pub headers_equal_iff :
    (a b : Header) → IsMap a → IsMap b → (headers_equal a b ≡ true) ↔ SameHeader a b
unfolding headers_equal
headers_equal_iff a b ma mb = (
  (λ e. entries_equal_sound a b ma mb (ground arith) (ground arith)),
  (λ s. ground (arith, entries_equal_complete a b ma mb s)),
)

abbrev pub SameRequest : Request → Request → Type 0
SameRequest r o =
    (r.method ≡ o.method) × (r.url ≡ o.url) × SameHeader r.header o.header × (r.body ≡ o.body)

abbrev pub SameResponse : Response → Response → Type 0
SameResponse r o =
    (r.status_code ≡ o.status_code) × SameHeader r.header o.header × (r.body ≡ o.body)

pub request_equal_iff :
    (r o : Request) → IsMap r.header → IsMap o.header → (request_equal r o ≡ true) ↔ SameRequest r o
unfolding request_equal
request_equal_iff r o mr mo = (
  (λ e. (
    ground (arith, equal_iff r.method o.method),
    ground (arith, equal_iff r.method o.method, equal_iff r.url o.url),
    (headers_equal_iff r.header o.header mr mo).0 (ground arith),
    ground (arith, equal_iff r.body o.body),
  )),
  (λ s. ground (
    arith,
    equal_iff r.method o.method,
    equal_iff r.url o.url,
    equal_iff r.body o.body,
    (headers_equal_iff r.header o.header mr mo).1 s.2,
  )),
)

pub response_equal_iff :
    (r o : Response)
    → IsMap r.header
    → IsMap o.header
    → (response_equal r o ≡ true) ↔ SameResponse r o
unfolding response_equal
response_equal_iff r o mr mo = (
  (λ e. (
    ground arith,
    (headers_equal_iff r.header o.header mr mo).0 (ground arith),
    ground (arith, equal_iff r.body o.body),
  )),
  (λ s. ground (arith, equal_iff r.body o.body, (headers_equal_iff r.header o.header mr mo).1 s.1)),
)
