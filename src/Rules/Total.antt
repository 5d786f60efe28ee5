-- ===== src/Rules/Total.antt =====
-- Matching and applying a compiled rule never follows a nil pointer.
use proxy_scope.Http.Header.{Header}
use proxy_scope.Prelude.{
  if◌then◌else◌, ◌&&◌, not, ℕ, [], Bool-cases, inr, inl, some, ◌∷◌, Option-cases, arith, none, ◌≢◌,
  true, Option, List, ◌≡◌,
}
use proxy_scope.Prelude.Text.{equal_fold, equal, Bytes}
use proxy_scope.Rules.Ready.{
  ready_text, ready_condition, ready_conditions, ready_action, ready_path, is_ready, all_ready,
}
use proxy_scope.Rules.Match.{
  path_matches, host_excluded, false_if, Target, text_matches, any_matches, condition_matches,
  matches_scope, all_match, matches, apply,
}
use proxy_scope.Rules.Engine.{next_status, apply_rules}
use proxy_scope.Rules.Compile.{Compiled, CompiledCondition, CompiledAction}
use proxy_scope.Rules.{
  Library, Direction, Condition, Action, PathMatch, TextMatch, ConditionType, ActionType,
  path_unset, path_exact, path_prefix, path_regex, path_other, match_exact, match_contains,
  match_regex, match_other, condition_header, condition_body, condition_status, condition_other,
  replace_header, add_header, remove_header, replace_body, body_regex_replace, set_status,
  action_other,
}

module _ (lib : Library) where
  text_matches-total :
      (mode : TextMatch) (re : Option lib.Regex) (want got : Bytes)
      → ready_text mode re ≡ true
      → text_matches lib mode re want got ≢ none
  unfolding text_matches
  text_matches-total match_exact re want got h = ground arith
  text_matches-total match_contains re want got h = ground arith
  text_matches-total match_regex none want got h = ground arith
  text_matches-total match_regex (some r) want got h = ground arith
  text_matches-total (match_other s) re want got h = ground arith

  any_matches-total :
      (mode : TextMatch) (re : Option lib.Regex) (want : Bytes) (vs : List Bytes)
      → ready_text mode re ≡ true
      → any_matches lib mode re want vs ≢ none
  unfolding any_matches
  any_matches-total mode re want [] h = ground arith
  any_matches-total mode re want (v ∷ vs) h =
      elim (Option-cases (text_matches lib mode re want v)) [
        | inl e ↦ absurd (text_matches-total mode re want v h e)
        | inr (m, e) ↦ elim (Bool-cases m) [
          | inl f ↦ ground (arith)
          | inr f ↦ ground (arith, any_matches-total mode re want vs h)
        ]
      ]

  condition_matches_as-total :
      (type : ConditionType) (cond : Condition) (re : Option lib.Regex) (t : Target)
      → let cc : CompiledCondition lib.Regex = record {
        c = record cond { type = type };
        re = re;
      } in
        ready_condition cc ≡ true → condition_matches lib cc t ≢ none
  unfolding condition_matches
  condition_matches_as-total condition_header cond re t h =
      any_matches-total cond.match re cond.value _ h
  condition_matches_as-total condition_body cond re t h =
      text_matches-total cond.match re cond.value t.body h
  condition_matches_as-total condition_status cond re t h = ground (arith, Option-cases cond.equals)
  condition_matches_as-total (condition_other s) cond re t h = ground arith

  condition_matches-total :
      (cc : CompiledCondition lib.Regex) (t : Target)
      → ready_condition cc ≡ true
      → condition_matches lib cc t ≢ none
  condition_matches-total cc t h = condition_matches_as-total cc.c.type cc.c cc.re t h

  all_match-total :
      (ccs : List (CompiledCondition lib.Regex)) (t : Target)
      → ready_conditions ccs ≡ true
      → all_match lib ccs t ≢ none
  unfolding all_match
  all_match-total [] t h = ground arith
  all_match-total (cc ∷ ccs) t h = elim (Option-cases (condition_matches lib cc t)) [
    | inl e ↦ absurd (ground (arith, condition_matches-total cc t))
    | inr (m, e) ↦ elim (Bool-cases m) [
      | inl f ↦ ground (arith, all_match-total ccs t)
      | inr f ↦ ground arith
    ]
  ]

  matches_scope-total :
      (c : Compiled lib.Regex) (t : Target)
      → ready_path c.rule.scope.path_match c.path_re ≡ true
      → matches_scope lib c t ≢ none
  unfolding matches_scope
  matches_scope-total c t h = path c.rule.scope.path_match c.path_re h
    where
      path :
          (m : PathMatch) (re : Option lib.Regex)
          → ready_path m re ≡ true
          → false_if (host_excluded lib c t.host) (
              false_if
                (not (equal c.rule.scope.method [])
                  && not (equal_fold c.rule.scope.method t.method))
                (if equal c.rule.scope.path []
                  then some true
                  else path_matches lib m re c.rule.scope.path t.path))
            ≢ none
      path path_unset re k = ground arith
      path path_exact re k = ground arith
      path path_prefix re k = ground arith
      path path_regex none k = ground arith
      path path_regex (some re) k = ground arith
      path (path_other s) re k = ground arith

  pub matches-total :
      (c : Compiled lib.Regex) (dir : Direction) (t : Target)
      → is_ready c ≡ true
      → matches lib c dir t ≢ none
  unfolding matches
  matches-total c dir t h = elim (Option-cases (matches_scope lib c t)) [
    | inl e ↦ absurd (matches_scope-total c t (ground arith) e)
    | inr (m, e) ↦ elim (Bool-cases m) [
      | inl f ↦ ground (arith, all_match-total c.conditions t)
      | inr f ↦ ground arith
    ]
  ]

  apply_as-total :
      (type : ActionType) (a : Action) (re : Option lib.Regex) (header : Header) (body : Bytes)
      (status : ℕ)
      → let ca : CompiledAction lib.Regex = record { a = record a { type = type }; re = re } in
        ready_action ca ≡ true → apply lib ca header body status ≢ none
  unfolding apply
  apply_as-total replace_header a re header body status h = ground arith
  apply_as-total add_header a re header body status h = ground arith
  apply_as-total remove_header a re header body status h = ground arith
  apply_as-total replace_body a re header body status h = ground arith
  apply_as-total body_regex_replace a none header body status h = ground arith
  apply_as-total body_regex_replace a (some re) header body status h = ground arith
  apply_as-total set_status a re header body status h = ground arith
  apply_as-total (action_other s) a re header body status h = ground arith

  pub apply-total :
      (ca : CompiledAction lib.Regex) (header : Header) (body : Bytes) (status : ℕ)
      → ready_action ca ≡ true
      → apply lib ca header body status ≢ none
  apply-total ca header body status h = apply_as-total ca.a.type ca.a ca.re header body status h

  pub apply_rules-total :
      (dir : Direction) (cs : List (Compiled lib.Regex)) (t : Target)
      → all_ready cs ≡ true
      → apply_rules lib dir cs t ≢ none
  unfolding apply_rules
  apply_rules-total dir [] t h = ground arith
  apply_rules-total dir (c ∷ cs) t h = elim (Option-cases (matches lib c dir t)) [
    | inl e ↦ absurd (matches-total c dir t (ground arith) e)
    | inr (m, e) ↦ elim (Bool-cases m) [
      | inl f ↦ elim (Option-cases (apply lib c.action t.header t.body t.status)) [
        | inl g ↦ absurd (apply-total c.action t.header t.body t.status (ground arith) g)
        | inr (out, g) ↦
            rw (e, f, g)
              (ground (
                arith,
                apply_rules-total dir cs (record t {
                  header = out.0;
                  body = out.1;
                  status = next_status lib dir t.status out.2;
                }),
              ))
      ]
      | inr f ↦ rw (e, f) (apply_rules-total dir cs t (ground arith))
    ]
  ]
