-- ===== src/Rules/Ready.antt =====
-- A compiled rule has every pointer that matching and applying it follow, and asks for the body
-- whenever its action replaces it.
use proxy_scope.Rules.Wants.{uses_body}
use proxy_scope.Prelude.{
  ◌∙◌, ap, if◌then◌else◌, ◌||◌, not, refl, none, [], some, ◌∷◌, arith, false, ◌&&◌, ℕ, ◌++◌, true,
  Bool, List, Option, ◌≡◌,
}
use proxy_scope.Prelude.Text.{Bytes}
use proxy_scope.Rules.Build.{replaces_body}
use proxy_scope.Rules.Compile.{
  ok, Compiled, CompiledCondition, CompiledAction, compile_condition, compile_action,
}
use proxy_scope.Rules.{
  Library, Direction, Condition, Action, PathMatch, TextMatch, ConditionType, ActionType,
  path_unset, path_exact, path_prefix, path_regex, path_other, match_exact, match_contains,
  match_regex, match_other, condition_header, condition_body, condition_status, condition_other,
  replace_header, add_header, remove_header, replace_body, body_regex_replace, set_status,
  action_other,
}

abbrev pub has : {A : Type 0} → Option A → Bool
has none = false
has (some a) = true

abbrev pub ready_text : {R : Type 0} → TextMatch → Option R → Bool
ready_text match_regex re = has re
ready_text match_exact re = true
ready_text match_contains re = true
ready_text (match_other s) re = true

abbrev ready_as : {R : Type 0} → ConditionType → CompiledCondition R → Bool
ready_as condition_header cc = ready_text cc.c.match cc.re
ready_as condition_body cc = ready_text cc.c.match cc.re
ready_as condition_status cc = has cc.c.equals
ready_as (condition_other s) cc = true

abbrev pub ready_condition : {R : Type 0} → CompiledCondition R → Bool
ready_condition cc = ready_as cc.c.type cc

abbrev pub ready_conditions : {R : Type 0} → List (CompiledCondition R) → Bool
ready_conditions [] = true
ready_conditions (cc ∷ ccs) = ready_condition cc && ready_conditions ccs

abbrev pub ready_path : {R : Type 0} → PathMatch → Option R → Bool
ready_path path_regex re = has re
ready_path path_exact re = true
ready_path path_prefix re = true
ready_path path_unset re = true
ready_path (path_other s) re = true

abbrev ready_action_as : {R : Type 0} → ActionType → Option R → Bool
ready_action_as body_regex_replace re = has re
ready_action_as replace_header re = true
ready_action_as add_header re = true
ready_action_as remove_header re = true
ready_action_as replace_body re = true
ready_action_as set_status re = true
ready_action_as (action_other s) re = true

abbrev pub ready_action : {R : Type 0} → CompiledAction R → Bool
ready_action ca = ready_action_as ca.a.type ca.re

-- An action on the body makes the rule need the body.
abbrev pub covers_body : {R : Type 0} → Compiled R → Bool
covers_body c = not (replaces_body c.action.a.type) || c.needs_body

-- The flag is set exactly if the rule uses the body.
unfoldable pub exact_body : {R : Type 0} → Compiled R → Bool
exact_body c = if uses_body c.rule then c.needs_body else not c.needs_body

pub exact_body_lem :
    {R : Type 0} (c : Compiled R) → exact_body c ≡ true → c.needs_body ≡ uses_body c.rule
unfolding exact_body
exact_body_lem c e = ground arith

pub exact_body_holds :
    {R : Type 0} (c : Compiled R) → c.needs_body ≡ uses_body c.rule → exact_body c ≡ true
unfolding exact_body
exact_body_holds c e = ground arith

abbrev pub is_ready : {R : Type 0} → Compiled R → Bool
is_ready c =
    ready_path c.rule.scope.path_match c.path_re
    && ready_conditions c.conditions
    && ready_action c.action
    && covers_body c
    && exact_body c

abbrev pub all_ready : {R : Type 0} → List (Compiled R) → Bool
all_ready [] = true
all_ready (c ∷ cs) = is_ready c && all_ready cs

pub ready_conditions-append :
    {R : Type 0} (xs ys : List (CompiledCondition R))
    → ready_conditions (xs ++ ys) ≡ ready_conditions xs && ready_conditions ys
ready_conditions-append [] ys = refl
ready_conditions-append (x ∷ xs) ys = ground (arith, ready_conditions-append xs ys)

and_assoc : (a b c : Bool) → a && (b && c) ≡ (a && b) && c
and_assoc true b c = refl
and_assoc false b c = refl

pub all_ready-append :
    {R : Type 0} (xs ys : List (Compiled R)) → all_ready (xs ++ ys) ≡ all_ready xs && all_ready ys
all_ready-append [] ys = refl
all_ready-append (x ∷ xs) ys =
    ap (λ z. is_ready x && z) (all_ready-append xs ys)
    ∙ and_assoc (is_ready x) (all_ready xs) (all_ready ys)

-- The flag of the first of some rules that are ready.
pub all_ready-uses_body :
    {R : Type 0} (c : Compiled R) (cs : List (Compiled R))
    → all_ready (c ∷ cs) ≡ true
    → c.needs_body ≡ uses_body c.rule
all_ready-uses_body c cs e = exact_body_lem c (ground arith)

module _ (lib : Library) where
  compile_condition_case :
      (t : ConditionType) (m : TextMatch) (name value : Bytes) (eq : Option ℕ) (dir : Direction)
      (cc : CompiledCondition lib.Regex)
      → compile_condition lib dir
          (record { type = t; name = name; match = m; value = value; equals = eq })
        ≡ ok cc
      → (ready_condition cc ≡ true)
        × (cc.c ≡ record { type = t; name = name; match = m; value = value; equals = eq })
  unfolding compile_condition
  compile_condition_case condition_header match_exact name value eq dir cc e = ground arith
  compile_condition_case condition_header match_contains name value eq dir cc e = ground arith
  compile_condition_case condition_header match_regex name value eq dir cc e = ground arith
  compile_condition_case condition_header (match_other s) name value eq dir cc e = ground arith
  compile_condition_case condition_body match_exact name value eq dir cc e = ground arith
  compile_condition_case condition_body match_contains name value eq dir cc e = ground arith
  compile_condition_case condition_body match_regex name value eq dir cc e = ground arith
  compile_condition_case condition_body (match_other s) name value eq dir cc e = ground arith
  compile_condition_case condition_status m name value eq dir cc e = ground arith
  compile_condition_case (condition_other s) m name value eq dir cc e = ground arith

  pub compile_condition-ready :
      (dir : Direction) (cond : Condition) (cc : CompiledCondition lib.Regex)
      → compile_condition lib dir cond ≡ ok cc
      → (ready_condition cc ≡ true) × (cc.c ≡ cond)
  compile_condition-ready dir cond cc e =
      compile_condition_case cond.type cond.match cond.name cond.value cond.equals dir cc e

  compile_action_case :
      (t : ActionType) (a : Action) (dir : Direction) (ca : CompiledAction lib.Regex)
      → compile_action lib dir (record a { type = t }) ≡ ok ca
      → (ready_action ca ≡ true) × (ca.a ≡ record a { type = t })
  unfolding compile_action
  compile_action_case replace_header a dir ca e = ground arith
  compile_action_case add_header a dir ca e = ground arith
  compile_action_case remove_header a dir ca e = ground arith
  compile_action_case replace_body a dir ca e = ground arith
  compile_action_case body_regex_replace a dir ca e = ground arith
  compile_action_case set_status a dir ca e = ground arith
  compile_action_case (action_other s) a dir ca e = ground arith

  pub compile_action-ready :
      (dir : Direction) (a : Action) (ca : CompiledAction lib.Regex)
      → compile_action lib dir a ≡ ok ca
      → (ready_action ca ≡ true) × (ca.a ≡ a)
  compile_action-ready dir a ca e = compile_action_case a.type a dir ca e
