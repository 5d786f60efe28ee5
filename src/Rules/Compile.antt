-- ===== src/Rules/Compile.antt =====
-- internal/rules/compile.go: validation and compilation of a rules file. The formatted texts of the
-- errors are constructors. A nil dereference is the error `panics`.
use Prim.Native.Nat.{zero}
use proxy_scope.Prelude.{
  ◌-◌, ◌+◌, ◌==◌, length, ◌*◌, ltb, ◌∷◌, not, true, ◌||◌, false, suc, ◌&&◌, if◌then◌else◌, List, ℕ,
  some, [], none, Option, Bool,
}
use proxy_scope.Prelude.Text.{Bytes, equal, is_lower, is_upper, is_digit}
use proxy_scope.Http.Header.{all_token}
use proxy_scope.Prelude.Word.{lt64, int64_limit}
use proxy_scope.Rules.{
  Library, Direction, request_direction, response_direction, other_direction, TextMatch,
  match_exact, match_contains, match_regex, match_other, ConditionType, condition_header,
  condition_body, condition_status, condition_other, ActionType, replace_header, add_header,
  remove_header, replace_body, body_regex_replace, set_status, action_other, Condition, Action,
  Rule,
}

pub data Reason : Type 0 where
  id_required id_characters id_duplicate bad_direction bad_path_regex bad_path_match : Reason
  needs_name bad_name bad_regex bad_match status_direction needs_equals bad_status bad_type : Reason
  bad_value bad_pattern panics : Reason
  bad_group unknown_group : Bytes → Reason
  in_condition : ℕ → Reason → Reason
  header_conflict : ℕ → Reason
  status_conflict : ℕ → ℕ → Reason
  in_action : Reason → Reason

pub data Error : Type 0 where
  unsupported_version : ℕ → Error
  rule_error : ℕ → Bytes → Reason → Error

-- A result or an error.
pub data Fallible (E A : Type 0) : Type 0 where
  ok : A → Fallible E A
  err : E → Fallible E A

infixl 5 ◌>>=◌ ◌>>◌
abbrev pub ◌>>=◌ : {E A B : Type 0} → Fallible E A → (A → Fallible E B) → Fallible E B
ok a >>= f = f a
err e >>= f = err e

abbrev pub ◌>>◌ : {E B : Type 0} → Fallible E (Unit {0}) → Fallible E B → Fallible E B
m >> k = m >>= λ _. k

-- `if test { return err }`.
abbrev pub refuse_if : {E : Type 0} → Bool → E → Fallible E (Unit {0})
refuse_if true e = err e
refuse_if false e = ok tt

-- `fmt.Errorf` around the error of a call.
abbrev pub wrap : {E F A : Type 0} → (E → F) → Fallible E A → Fallible F A
wrap f (ok a) = ok a
wrap f (err e) = err (f e)

abbrev pub or_error : {E A : Type 0} → Option A → E → Fallible E A
or_error none e = err e
or_error (some a) e = ok a

pub record CompiledCondition (R : Type 0) : Type 0 where
  pub c : Condition
  pub re : Option R

pub record CompiledAction (R : Type 0) : Type 0 where
  pub a : Action
  pub re : Option R

pub record Compiled (R : Type 0) : Type 0 where
  pub rule : Rule
  pub host_wildcard : Bool
  pub host_match : Bytes
  pub path_re : Option R
  pub conditions : List (CompiledCondition R)
  pub action : CompiledAction R
  pub needs_body : Bool

pub record CompiledSet (R : Type 0) : Type 0 where
  pub rules : List (Compiled R)
  pub needs_req_body : Bool
  pub needs_resp_body : Bool

unfoldable pub is_word_byte : ℕ → Bool
unfolding is_lower is_upper is_digit
is_word_byte b = is_lower b || is_upper b || is_digit b || b == b'_'

unfoldable pub is_id_byte : ℕ → Bool
unfolding is_lower is_upper is_digit
is_id_byte c = is_lower c || is_upper c || is_digit c || c == b'-' || c == b'_' || c == b'.'

unfoldable pub is_rule_id : Bytes → Bool
unfolding is_id_byte
is_rule_id [] = true
is_rule_id (c ∷ s) = if not (is_id_byte c) then false else is_rule_id s

unfoldable pub is_header_token : Bytes → Bool
is_header_token [] = false
is_header_token (c ∷ s) = all_token (c ∷ s)

-- `strings.ContainsAny(s, "\x00\r\n")`.
unfoldable pub has_control : Bytes → Bool
has_control [] = false
has_control (c ∷ s) = c == 0 || c == 13 || c == 10 || has_control s

abbrev pub is_valid_status : ℕ → Bool
is_valid_status s = not (lt64 s 100 || lt64 599 s)

-- What stands before the first byte `c`, and what behind it.
unfoldable pub cut : ℕ → Bytes → Option (Bytes × Bytes)
cut c [] = none
cut c (d ∷ s) =
    if d == c then some ([], s) else elim (cut c s) [ none ↦ none | some (a, b) ↦ some (d ∷ a, b) ]

-- The word at the start of a text, and the rest.
unfoldable pub span_word : Bytes → Bytes × Bytes
unfolding is_word_byte
span_word [] = ([], [])
span_word (c ∷ s) =
    let rest = span_word s in if is_word_byte c then (c ∷ rest.0, rest.1) else ([], c ∷ s)

abbrev pub keep_ref : Bytes → Option (List Bytes) → Option (List Bytes)
keep_ref ref none = none
keep_ref ref (some refs) = some (ref ∷ refs)

abbrev pub keep_word : Bytes → Option (List Bytes) → Option (List Bytes)
keep_word [] refs = refs
keep_word (c ∷ w) refs = keep_ref (c ∷ w) refs

-- The loop of `referencedGroups`, on fuel; `none` means that the fuel ran out. Each round takes a byte at least.
unfoldable pub groups : ℕ → Bytes → Option (List Bytes)
unfolding cut span_word
groups zero s = none
groups (suc n) [] = some []
groups (suc n) (c ∷ s) = if not (c == b'$') then groups n s else elim s [
  | [] ↦ some []
  | d ∷ t ↦
      if d == b'$'
      then groups n t
      else if d == b'{'
      then elim (cut b'}' t) [ none ↦ some [] | some (name, rest) ↦ keep_ref name (groups n rest) ]
      else keep_word (span_word (d ∷ t)).0 (groups n (span_word (d ∷ t)).1)
]

abbrev pub found : Option (List Bytes) → List Bytes
found none = []
found (some refs) = refs

-- The references, on one unit of fuel more than the text has bytes.
abbrev pub referenced_groups : Bytes → List Bytes
referenced_groups s = found (groups (suc (length s)) s)

abbrev digits : ℕ → Bytes → Option ℕ
digits acc [] = some acc
digits acc (c ∷ s) = if is_digit c then digits (acc * 10 + (c - b'0')) s else none

abbrev unsigned : Bytes → Option ℕ
unsigned [] = none
unsigned (c ∷ s) = digits 0 (c ∷ s)

abbrev within : Bool → ℕ → Option ℕ → Option (Bool × ℕ)
within negative limit none = none
within negative limit (some n) = if ltb limit n then none else some (negative, n)

-- strconv.Atoi: a sign, and the absolute value.
unfoldable pub atoi : Bytes → Option (Bool × ℕ)
unfolding is_digit
atoi [] = none
atoi (c ∷ s) =
    if c == b'-'
    then within true int64_limit (unsigned s)
    else if c == b'+'
    then within false (int64_limit - 1) (unsigned s)
    else within false (int64_limit - 1) (unsigned (c ∷ s))

abbrev pub member : Bytes → List Bytes → Bool
member x [] = false
member x (y ∷ ys) = equal y x || member x ys

module _ (lib : Library) where
  -- One reference of `checkReplacementRefs`. The names are looked up among those that are not empty.
  unfoldable pub check_ref : lib.Regex → Bytes → Fallible Reason (Unit {0})
  check_ref re ref = elim (atoi ref) [
    | some (negative, n) ↦
        refuse_if (negative && not (n == 0) || ltb (lib.num_subexp re) n && not negative)
          (bad_group ref)
    | none ↦ refuse_if (equal ref [] || not (member ref (lib.subexp_names re))) (unknown_group ref)
  ]

  unfoldable pub check_refs : lib.Regex → List Bytes → Fallible Reason (Unit {0})
  check_refs re [] = ok tt
  check_refs re (ref ∷ refs) = check_ref re ref >> check_refs re refs

  abbrev pub check_replacement_refs : lib.Regex → Bytes → Fallible Reason (Unit {0})
  check_replacement_refs re replacement = check_refs re (referenced_groups replacement)

  abbrev with_regex : Condition → Fallible Reason (CompiledCondition lib.Regex)
  with_regex cond = do
    re ← or_error (lib.compile_regex cond.value) bad_regex
    ok (record { c = cond; re = some re })

  abbrev plain : Condition → Fallible Reason (CompiledCondition lib.Regex)
  plain cond = ok (record { c = cond; re = none })

  abbrev header_match : TextMatch → Condition → Fallible Reason (CompiledCondition lib.Regex)
  header_match match_exact cond = plain cond
  header_match match_contains cond = plain cond
  header_match match_regex cond = with_regex cond
  header_match (match_other s) cond = err bad_match

  abbrev body_match : TextMatch → Condition → Fallible Reason (CompiledCondition lib.Regex)
  body_match match_contains cond = plain cond
  body_match match_regex cond = with_regex cond
  body_match match_exact cond = err bad_match
  body_match (match_other s) cond = err bad_match

  abbrev pub is_response : Direction → Bool
  is_response response_direction = true
  is_response request_direction = false
  is_response (other_direction s) = false

  -- The cases of `compileCondition`.
  abbrev condition_case :
      ConditionType → Direction → Condition → Fallible Reason (CompiledCondition lib.Regex)
  condition_case condition_header dir cond = do
    refuse_if (equal cond.name []) needs_name
    refuse_if (not (is_header_token cond.name)) bad_name
    header_match cond.match cond
  condition_case condition_body dir cond = body_match cond.match cond
  condition_case condition_status dir cond = do
    refuse_if (not (is_response dir)) status_direction
    n ← or_error cond.equals needs_equals
    refuse_if (not (is_valid_status n)) bad_status
    plain cond
  condition_case (condition_other s) dir cond = err bad_type

  unfoldable pub compile_condition :
      Direction → Condition → Fallible Reason (CompiledCondition lib.Regex)
  compile_condition dir cond = condition_case cond.type dir cond

  abbrev plain_action : Action → Fallible Reason (CompiledAction lib.Regex)
  plain_action a = ok (record { a = a; re = none })

  -- The cases of `compileAction`.
  abbrev action_case : ActionType → Direction → Action → Fallible Reason (CompiledAction lib.Regex)
  action_case replace_header dir a = do
    refuse_if (equal a.name []) needs_name
    refuse_if (not (is_header_token a.name)) bad_name
    refuse_if (has_control a.value) bad_value
    plain_action a
  action_case add_header dir a = do
    refuse_if (equal a.name []) needs_name
    refuse_if (not (is_header_token a.name)) bad_name
    refuse_if (has_control a.value) bad_value
    plain_action a
  action_case remove_header dir a = do
    refuse_if (equal a.name []) needs_name
    refuse_if (not (is_header_token a.name)) bad_name
    plain_action a
  action_case replace_body dir a = plain_action a
  action_case body_regex_replace dir a = do
    re ← or_error (lib.compile_regex a.pattern) bad_pattern
    check_replacement_refs re a.replacement
    ok (record { a = a; re = some re })
  action_case set_status dir a = do
    refuse_if (not (is_response dir)) status_direction
    refuse_if (not (is_valid_status a.status)) bad_status
    plain_action a
  action_case (action_other s) dir a = err bad_type

  unfoldable pub compile_action : Direction → Action → Fallible Reason (CompiledAction lib.Regex)
  compile_action dir a = action_case a.type dir a
