-- ===== src/Http/Header.antt =====
-- http.Header: a map from canonical names to lists of values, as a list of entries. The entries of a
-- header that the program builds have distinct names (`IsMap`).
use proxy_scope.Prelude.{
  ℕ, ◌≡◌, refl, Bool, true, ◌&&◌, ◌||◌, List, [], ◌∷◌, ◌++◌, Option, none, some, arith, ◌==◌,
  if◌then◌else◌,
}
use proxy_scope.Prelude.Text.{
  Bytes, codes, equal, equal_iff, is_upper, is_lower, is_digit, has_byte, byte_to_lower,
  byte_to_upper,
}

abbrev pub Header : Type 0
Header = List (Bytes × List Bytes)

unfoldable pub lookup : Bytes → Header → Option (List Bytes)
unfolding equal
lookup k [] = none
lookup k ((j, v) ∷ h) = if equal j k then some v else lookup k h

unfoldable pub insert : Bytes → List Bytes → Header → Header
unfolding equal
insert k v [] = (k, v) ∷ []
insert k v ((j, w) ∷ h) = if equal j k then (k, v) ∷ h else (j, w) ∷ insert k v h

unfoldable pub delete : Bytes → Header → Header
unfolding equal
delete k [] = []
delete k ((j, v) ∷ h) = if equal j k then delete k h else (j, v) ∷ delete k h

-- RFC 9110 token bytes; `validHeaderFieldByte` of net/textproto has the same set.
unfoldable pub is_token_byte : ℕ → Bool
unfolding is_lower is_upper is_digit has_byte
is_token_byte c = is_lower c || is_upper c || is_digit c || has_byte (codes "!#$%&'*+-.^_`|~") c

unfoldable pub all_token : Bytes → Bool
unfolding is_token_byte
all_token [] = true
all_token (c ∷ s) = is_token_byte c && all_token s

-- Upper case at the start and behind a dash, lower case elsewhere.
unfoldable pub capitalise : Bool → Bytes → Bytes
unfolding byte_to_lower byte_to_upper
capitalise first [] = []
capitalise first (c ∷ s) =
    (if first then byte_to_upper c else byte_to_lower c) ∷ capitalise (c == b'-') s

-- textproto.CanonicalMIMEHeaderKey: a name with a byte that is no token byte stays as it is.
unfoldable pub canonical : Bytes → Bytes
unfolding all_token capitalise
canonical s = if all_token s then capitalise true s else s

-- The methods of http.Header.
unfoldable pub values : Header → Bytes → List Bytes
unfolding lookup
values h name = elim (lookup (canonical name) h) [ none ↦ [] | some vs ↦ vs ]

abbrev first : List Bytes → Bytes
first [] = []
first (v ∷ vs) = v

unfoldable pub get : Header → Bytes → Bytes
unfolding values
get h name = first (values h name)

unfoldable pub set : Header → Bytes → Bytes → Header
unfolding insert
set h name value = insert (canonical name) (value ∷ []) h

unfoldable pub add : Header → Bytes → Bytes → Header
unfolding insert values
add h name value = insert (canonical name) (values h name ++ value ∷ []) h

unfoldable pub del : Header → Bytes → Header
unfolding delete
del h name = delete (canonical name) h

pub lookup-insert :
    (k j : Bytes) (v : List Bytes) (h : Header)
    → lookup j (insert k v h) ≡ (if equal k j then some v else lookup j h)
unfolding lookup insert
lookup-insert k j v [] = refl
lookup-insert k j v ((i, w) ∷ h) =
    ground (arith, equal_iff k j, equal_iff i k, equal_iff i j, lookup-insert k j v h)

pub lookup-delete :
    (k j : Bytes) (h : Header) → lookup j (delete k h) ≡ (if equal k j then none else lookup j h)
unfolding lookup delete
lookup-delete k j [] = ground arith
lookup-delete k j ((i, w) ∷ h) =
    ground (arith, equal_iff k j, equal_iff i k, equal_iff i j, lookup-delete k j h)

pub values-set :
    (h : Header) (name other value : Bytes)
    → values (set h name value) other
      ≡ (if equal (canonical name) (canonical other) then value ∷ [] else values h other)
unfolding values set
values-set h name other value =
    ground (arith, lookup-insert (canonical name) (canonical other) (value ∷ []) h)

pub values-del :
    (h : Header) (name other : Bytes)
    → values (del h name) other
      ≡ (if equal (canonical name) (canonical other) then [] else values h other)
unfolding values del
values-del h name other = ground (arith, lookup-delete (canonical name) (canonical other) h)

pub values-add :
    (h : Header) (name other value : Bytes)
    → values (add h name value) other ≡ (
        if equal (canonical name) (canonical other)
        then values h other ++ value ∷ []
        else values h other)
unfolding values add
values-add h name other value = ground (
  arith,
  equal_iff (canonical name) (canonical other),
  lookup-insert (canonical name) (canonical other) (values h name ++ value ∷ []) h,
)
