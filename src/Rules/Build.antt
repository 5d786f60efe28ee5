-- ===== src/Rules/Build.antt =====
-- internal/rules/compile.go: compileRule and compile, which put the checks of the conditions and of the action
-- together.
use proxy_scope.Prelude.{
  drop, ◌&&◌, some, not, ◌+◌, false, ◌∷◌, ◌==◌, none, true, Option, Bool, if◌then◌else◌, ℕ, List,
  ◌++◌, ◌||◌, [],
}
use proxy_scope.Prelude.Text.{Bytes, codes, equal, to_lower, trim_space, has_prefix}
use proxy_scope.Rules.Compile.{
  Reason, panics, in_condition, header_conflict, status_conflict, in_action, bad_direction,
  bad_path_regex, bad_path_match, id_required, id_characters, id_duplicate, Error,
  unsupported_version, rule_error, Fallible, ok, err, ◌>>=◌, ◌>>◌, refuse_if, wrap, or_error,
  Compiled, CompiledCondition, CompiledSet, compile_condition, compile_action, is_rule_id, member,
}
use proxy_scope.Rules.{
  Library, Direction, request_direction, response_direction, other_direction, PathMatch, path_unset,
  path_exact, path_prefix, path_regex, path_other, TextMatch, match_exact, match_contains,
  match_regex, match_other, ConditionType, condition_header, condition_body, condition_status,
  condition_other, ActionType, replace_header, add_header, remove_header, replace_body,
  body_regex_replace, set_status, action_other, Condition, Rule, RulesFile,
}

-- What the loop over the conditions keeps.
pub record Progress (R : Type 0) : Type 0 where
  pub status_equals : List ℕ
  pub header_exact : List (Bytes × Bytes)
  pub needs_body : Bool
  pub conditions : List (CompiledCondition R)

abbrev pub nothing_yet : {R : Type 0} → Progress R
nothing_yet = record { status_equals = []; header_exact = []; needs_body = false; conditions = [] }

-- The latest value under a key.
unfoldable pub previous : Bytes → List (Bytes × Bytes) → Option Bytes
previous k [] = none
previous k ((j, v) ∷ m) = if equal j k then some v else previous k m

abbrev conflicts : Option Bytes → Bytes → Bool
conflicts none value = false
conflicts (some prev) value = not (equal prev value)

abbrev pub check_exact :
    TextMatch → ℕ → Bytes → Bytes → List (Bytes × Bytes) → Fallible Reason (List (Bytes × Bytes))
check_exact match_exact i name value m = do
  refuse_if (conflicts (previous (to_lower name) m) value) (header_conflict i)
  ok ((to_lower name, value) ∷ m)
check_exact match_contains i name value m = ok m
check_exact match_regex i name value m = ok m
check_exact (match_other s) i name value m = ok m

-- The rest of the loop's body, behind `compileCondition`.
abbrev pub note_condition :
    {R : Type 0}
    → ConditionType
    → ℕ
    → Condition
    → CompiledCondition R
    → Progress R
    → Fallible Reason (Progress R)
note_condition condition_status i cond cc p = do
  n ← or_error cond.equals panics
  ok (record p { status_equals = p.status_equals ++ n ∷ []; conditions = p.conditions ++ cc ∷ [] })
note_condition condition_header i cond cc p = do
  m ← check_exact cond.match i cond.name cond.value p.header_exact
  ok (record p { header_exact = m; conditions = p.conditions ++ cc ∷ [] })
note_condition condition_body i cond cc p =
    ok (record p { needs_body = true; conditions = p.conditions ++ cc ∷ [] })
note_condition (condition_other s) i cond cc p =
    ok (record p { conditions = p.conditions ++ cc ∷ [] })

-- `for i := 1; ...`: every later status equals the first.
unfoldable pub all_same : ℕ → List ℕ → Fallible Reason (Unit {0})
all_same first [] = ok tt
all_same first (n ∷ ns) =
    refuse_if (not (n == first)) (status_conflict first n) >> all_same first ns

abbrev pub check_statuses : List ℕ → Fallible Reason (Unit {0})
check_statuses [] = ok tt
check_statuses (n ∷ ns) = all_same n ns

abbrev pub check_direction : Direction → Fallible Reason (Unit {0})
check_direction request_direction = ok tt
check_direction response_direction = ok tt
check_direction (other_direction s) = err bad_direction

abbrev pub default_path_match : PathMatch → PathMatch
default_path_match path_unset = path_exact
default_path_match m = m

-- Whether the scope starts with "*.", and the host to compare with, which keeps the dot.
abbrev pub host_of : Bytes → Bool × Bytes
host_of host = if has_prefix host (codes "*.") then (true, drop 1 host) else (false, host)

abbrev pub replaces_body : ActionType → Bool
replaces_body replace_body = true
replaces_body body_regex_replace = true
replaces_body replace_header = false
replaces_body add_header = false
replaces_body remove_header = false
replaces_body set_status = false
replaces_body (action_other s) = false

module _ (lib : Library) where
  abbrev pub path_regexp : PathMatch → Bytes → Fallible Reason (Option lib.Regex)
  path_regexp path_exact path = ok none
  path_regexp path_prefix path = ok none
  path_regexp path_regex path = do
    re ← or_error (lib.compile_regex path) bad_path_regex
    ok (some re)
  path_regexp path_unset path = err bad_path_match
  path_regexp (path_other s) path = err bad_path_match

  unfoldable pub compile_conditions :
      Direction → ℕ → List Condition → Progress lib.Regex → Fallible Reason (Progress lib.Regex)
  compile_conditions dir i [] p = ok p
  compile_conditions dir i (cond ∷ conds) p = do
    cc ← wrap (in_condition (i + 1)) (compile_condition lib dir cond)
    p' ← note_condition cond.type (i + 1) cond cc p
    compile_conditions dir (i + 1) conds p'

  unfoldable pub compile_rule : Rule → Fallible Reason (Compiled lib.Regex)
  compile_rule r = do
    check_direction r.direction
    let host = host_of (to_lower (trim_space r.scope.host))
    let path_match = default_path_match r.scope.path_match
    re ← path_regexp path_match r.scope.path
    p ← compile_conditions r.direction 0 r.conditions nothing_yet
    check_statuses p.status_equals
    ca ← wrap in_action (compile_action lib r.direction r.action)
    ok (record {
      rule = record r { scope = record r.scope { path_match = path_match } };
      host_wildcard = host.0;
      host_match = host.1;
      path_re = re;
      conditions = p.conditions;
      action = ca;
      needs_body = p.needs_body || replaces_body r.action.type;
    })

  abbrev pub is_request : Direction → Bool
  is_request request_direction = true
  is_request response_direction = false
  is_request (other_direction s) = false

  abbrev pub put_rule : Compiled lib.Regex → Rule → CompiledSet lib.Regex → CompiledSet lib.Regex
  put_rule c r set = record {
    rules = set.rules ++ c ∷ [];
    needs_req_body = set.needs_req_body || (r.enabled && c.needs_body && is_request r.direction);
    needs_resp_body =
        set.needs_resp_body || (r.enabled && c.needs_body && not (is_request r.direction));
  }

  -- The loop of `compile`; `seen` are the ids so far.
  unfoldable pub compile_rules :
      ℕ → List Bytes → List Rule → CompiledSet lib.Regex → Fallible Error (CompiledSet lib.Regex)
  compile_rules i seen [] set = ok set
  compile_rules i seen (r ∷ rs) set = do
    refuse_if (equal r.id []) (rule_error i [] id_required)
    refuse_if (not (is_rule_id r.id)) (rule_error i r.id id_characters)
    refuse_if (member r.id seen) (rule_error i r.id id_duplicate)
    c ← wrap (rule_error i r.id) (compile_rule r)
    compile_rules (i + 1) (r.id ∷ seen) rs (put_rule c r set)

  abbrev pub no_rules : CompiledSet lib.Regex
  no_rules = record { rules = []; needs_req_body = false; needs_resp_body = false }

  unfoldable pub compile : RulesFile → Fallible Error (CompiledSet lib.Regex)
  compile f = do
    let version = if f.version == 0 then 1 else f.version
    refuse_if (not (version == 1)) (unsupported_version version)
    compile_rules 0 [] f.rules no_rules
