-- ===== src/Rules/Match.antt =====
-- internal/rules/match.go and action.go: whether a rule applies to a message, and what it does to it. A nil
-- dereference is `none`.
use proxy_scope.Prelude.{
  ◌&&◌, drop, [], ◌∷◌, none, false, ◌||◌, ◌==◌, true, not, some, if◌then◌else◌, Option, Bool, ℕ,
  List,
}
use proxy_scope.Http.Header.{Header, values, set, add, del}
use proxy_scope.Prelude.Text.{Bytes, equal, equal_fold, has_prefix, has_suffix, contains, to_upper}
use proxy_scope.Rules.Compile.{Compiled, CompiledCondition, CompiledAction}
use proxy_scope.Rules.{
  Library, Direction, request_direction, response_direction, other_direction, PathMatch, path_unset,
  path_exact, path_prefix, path_regex, path_other, TextMatch, match_exact, match_contains,
  match_regex, match_other, ConditionType, condition_header, condition_body, condition_status,
  condition_other, ActionType, replace_header, add_header, remove_header, replace_body,
  body_regex_replace, set_status, action_other,
}

pub record Target : Type 0 where
  pub host : Bytes
  pub path : Bytes
  pub method : Bytes
  pub header : Header
  pub body : Bytes
  pub status : ℕ
  pub body_available : Bool

infixl 5 ◌>>=◌
abbrev pub ◌>>=◌ : {A B : Type 0} → Option A → (A → Option B) → Option B
none >>= f = none
some a >>= f = f a

-- `if test { return false }` and `if test { return true }` before the rest.
abbrev pub false_if : Bool → Option Bool → Option Bool
false_if true rest = some false
false_if false rest = rest

abbrev pub and_then : Option Bool → Option Bool → Option Bool
and_then none rest = none
and_then (some false) rest = some false
and_then (some true) rest = rest

abbrev pub or_else : Option Bool → Option Bool → Option Bool
or_else none rest = none
or_else (some true) rest = some true
or_else (some false) rest = rest

unfoldable pub same_direction : Direction → Direction → Bool
same_direction request_direction request_direction = true
same_direction request_direction response_direction = false
same_direction request_direction (other_direction t) = false
same_direction response_direction request_direction = false
same_direction response_direction response_direction = true
same_direction response_direction (other_direction t) = false
same_direction (other_direction s) request_direction = false
same_direction (other_direction s) response_direction = false
same_direction (other_direction s) (other_direction t) = equal s t

module _ (lib : Library) where
  -- `scopeOf`: host, path and method.
  abbrev pub scope_of : Bytes → Bytes → Bytes × Bytes × Bytes
  scope_of url method = elim (lib.parse_url url) [
    | none ↦ ([], [], to_upper method)
    | some (host, path) ↦ (host, path, to_upper method)
  ]

  abbrev match_with : Option lib.Regex → Bytes → Option Bool
  match_with none got = none
  match_with (some re) got = some (lib.match_string re got)

  unfoldable pub text_matches : TextMatch → Option lib.Regex → Bytes → Bytes → Option Bool
  text_matches match_exact re want got = some (equal got want)
  text_matches match_contains re want got = some (contains got want)
  text_matches match_regex re want got = match_with re got
  text_matches (match_other s) re want got = some false

  unfoldable pub any_matches : TextMatch → Option lib.Regex → Bytes → List Bytes → Option Bool
  any_matches mode re want [] = some false
  any_matches mode re want (v ∷ vs) =
      or_else (text_matches mode re want v) (any_matches mode re want vs)

  abbrev status_is : Option ℕ → ℕ → Option Bool
  status_is none status = none
  status_is (some n) status = some (status == n)

  abbrev condition_matches_as : ConditionType → CompiledCondition lib.Regex → Target → Option Bool
  condition_matches_as condition_header cc t =
      any_matches cc.c.match cc.re cc.c.value (values t.header cc.c.name)
  condition_matches_as condition_body cc t = text_matches cc.c.match cc.re cc.c.value t.body
  condition_matches_as condition_status cc t = status_is cc.c.equals t.status
  condition_matches_as (condition_other s) cc t = some false

  unfoldable pub condition_matches : CompiledCondition lib.Regex → Target → Option Bool
  condition_matches cc t = condition_matches_as cc.c.type cc t

  abbrev pub path_matches : PathMatch → Option lib.Regex → Bytes → Bytes → Option Bool
  path_matches path_prefix re want path = some (has_prefix path want)
  path_matches path_regex re want path = match_with re path
  path_matches path_exact re want path = some (equal path want)
  path_matches path_unset re want path = some (equal path want)
  path_matches (path_other s) re want path = some (equal path want)

  abbrev pub host_excluded : Compiled lib.Regex → Bytes → Bool
  host_excluded c host =
      if equal c.host_match []
      then false
      else if c.host_wildcard
      then not (equal host (drop 1 c.host_match)) && not (has_suffix host c.host_match)
      else not (equal host c.host_match)

  unfoldable pub matches_scope : Compiled lib.Regex → Target → Option Bool
  matches_scope c t = false_if (host_excluded c t.host) (
      false_if (not (equal c.rule.scope.method []) && not (equal_fold c.rule.scope.method t.method))
        (if equal c.rule.scope.path []
          then some true
          else path_matches c.rule.scope.path_match c.path_re c.rule.scope.path t.path))

  unfoldable pub all_match : List (CompiledCondition lib.Regex) → Target → Option Bool
  all_match [] t = some true
  all_match (cc ∷ ccs) t = and_then (condition_matches cc t) (all_match ccs t)

  unfoldable pub matches : Compiled lib.Regex → Direction → Target → Option Bool
  matches c dir t = false_if (not (same_direction c.rule.direction dir) || not c.rule.enabled) (
      false_if (c.needs_body && not t.body_available)
        (and_then (matches_scope c t) (all_match c.conditions t)))

  -- The header, the body and the status that `apply` leaves.
  abbrev apply_as :
      ActionType → CompiledAction lib.Regex → Header → Bytes → ℕ → Option (Header × Bytes × ℕ)
  apply_as replace_header ca h body status = some (set h ca.a.name ca.a.value, body, status)
  apply_as add_header ca h body status = some (add h ca.a.name ca.a.value, body, status)
  apply_as remove_header ca h body status = some (del h ca.a.name, body, status)
  apply_as replace_body ca h body status = some (h, ca.a.body, status)
  apply_as body_regex_replace ca h body status = elim ca.re [
    | none ↦ none
    | some re ↦ some (h, lib.replace_all re body ca.a.replacement, status)
  ]
  apply_as set_status ca h body status = some (h, body, ca.a.status)
  apply_as (action_other s) ca h body status = some (h, body, status)

  unfoldable pub apply : CompiledAction lib.Regex → Header → Bytes → ℕ → Option (Header × Bytes × ℕ)
  apply ca h body status = apply_as ca.a.type ca h body status
