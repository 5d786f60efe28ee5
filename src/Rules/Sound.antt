-- ===== src/Rules/Sound.antt =====
-- What a rule set that compiled guarantees.
use proxy_scope.Rules.{
  ActionType, replace_header, add_header, remove_header, replace_body, body_regex_replace,
  set_status, action_other,
}
use proxy_scope.Rules.Ready.{exact_body_holds}
use proxy_scope.Rules.Wants.{
  for_responses, is_body_action, any_body, for_requests, is_body_condition, uses_body,
}
use proxy_scope.Prelude.{
  not, ◌||◌, refl, ◌+◌, Option-cases, arith, inl, [], ◌∷◌, inr, true, Option, List, ◌++◌, ◌⊎◌, ◌≡◌,
  ℕ,
}
use proxy_scope.Rules.Ready.{
  compile_action-ready, is_ready, ready_conditions, ready_path, ready_conditions-append,
  compile_condition-ready,
}
use proxy_scope.Rules.Build.{
  replaces_body, is_request, check_statuses, nothing_yet, check_direction, default_path_match,
  compile_rule, note_condition, path_regexp, Progress, compile_conditions,
}
use proxy_scope.Rules.Compile.{
  compile_action, Compiled, Fallible, ok, err, CompiledCondition, compile_condition,
}
use proxy_scope.Rules.{
  add_header, response_direction, replace_header, request_direction, body_regex_replace,
  replace_body, other_direction, action_other, ActionType, Rule, Bytes, Library, Direction,
  Condition, PathMatch, TextMatch, ConditionType, path_unset, path_exact, path_prefix, path_regex,
  path_other, match_exact, match_contains, match_regex, match_other, condition_header,
  condition_body, condition_status, condition_other,
}

pub Fallible-cases :
    {E A : Type 0} (x : Fallible E A) → ((e : E) × (x ≡ err e)) ⊎ ((a : A) × (x ≡ ok a))
Fallible-cases (ok a) = inr (a, refl)
Fallible-cases (err e) = inl (e, refl)

module _ {R : Type 0} where
  check_exact-same :
      (m : TextMatch) (i : ℕ) (cond : Condition) (cc : CompiledCondition R) (p q : Progress R)
      → note_condition condition_header i (record cond { match = m }) cc p ≡ ok q
      → (q.conditions ≡ p.conditions ++ cc ∷ []) × (q.needs_body ≡ p.needs_body)
  check_exact-same match_exact i cond cc p q e = ground arith
  check_exact-same match_contains i cond cc p q e = ground arith
  check_exact-same match_regex i cond cc p q e = ground arith
  check_exact-same (match_other s) i cond cc p q e = ground arith

  note_condition-adds :
      (type : ConditionType) (i : ℕ) (cond : Condition) (cc : CompiledCondition R)
      (p q : Progress R)
      → note_condition type i cond cc p ≡ ok q
      → q.conditions ≡ p.conditions ++ cc ∷ []
  note_condition-adds condition_header i cond cc p q e =
      (check_exact-same cond.match i cond cc p q e).0
  note_condition-adds condition_body i cond cc p q e = ground arith
  note_condition-adds condition_status i cond cc p q e = ground (arith, Option-cases cond.equals)
  note_condition-adds (condition_other s) i cond cc p q e = ground arith

  note_condition-needs :
      (type : ConditionType) (i : ℕ) (cond : Condition) (cc : CompiledCondition R)
      (p q : Progress R)
      → note_condition type i cond cc p ≡ ok q
      → q.needs_body ≡ p.needs_body || is_body_condition type
  note_condition-needs condition_header i cond cc p q e =
      ground (arith, check_exact-same cond.match i cond cc p q e)
  note_condition-needs condition_body i cond cc p q e = ground arith
  note_condition-needs condition_status i cond cc p q e = ground (arith, Option-cases cond.equals)
  note_condition-needs (condition_other s) i cond cc p q e = ground arith

replaces_body-is_body_action : (type : ActionType) → replaces_body type ≡ is_body_action type
replaces_body-is_body_action replace_body = refl
replaces_body-is_body_action body_regex_replace = refl
replaces_body-is_body_action replace_header = refl
replaces_body-is_body_action add_header = refl
replaces_body-is_body_action remove_header = refl
replaces_body-is_body_action set_status = refl
replaces_body-is_body_action (action_other s) = refl

module _ (lib : Library) where
  compile_conditions-needs :
      (dir : Direction) (i : ℕ) (conds : List Condition) (p q : Progress lib.Regex)
      → compile_conditions lib dir i conds p ≡ ok q
      → q.needs_body ≡ p.needs_body || any_body conds
  unfolding compile_conditions
  compile_conditions-needs dir i [] p q e = ground arith
  compile_conditions-needs dir i (cond ∷ conds) p q e =
      elim (Fallible-cases (compile_condition lib dir cond)) [
        | inl (x, f) ↦ absurd (ground arith)
        | inr (c, f) ↦ elim (Fallible-cases (note_condition cond.type (i + 1) cond c p)) [
          | inl (x, g) ↦ absurd (ground arith)
          | inr (p', g) ↦ ground (
            arith,
            note_condition-needs cond.type (i + 1) cond c p p' g,
            compile_conditions-needs dir (i + 1) conds p' q (ground arith),
          )
        ]
      ]

  compile_conditions-ready :
      (dir : Direction) (i : ℕ) (conds : List Condition) (p q : Progress lib.Regex)
      → ready_conditions p.conditions ≡ true
      → compile_conditions lib dir i conds p ≡ ok q
      → ready_conditions q.conditions ≡ true
  unfolding compile_conditions
  compile_conditions-ready dir i [] p q r e = ground arith
  compile_conditions-ready dir i (cond ∷ conds) p q r e =
      elim (Fallible-cases (compile_condition lib dir cond)) [
        | inl (x, f) ↦ absurd (ground arith)
        | inr (c, f) ↦ elim (Fallible-cases (note_condition cond.type (i + 1) cond c p)) [
          | inl (x, g) ↦ absurd (ground arith)
          | inr (p', g) ↦
              compile_conditions-ready dir (i + 1) conds p' q
                (ground (
                  arith,
                  note_condition-adds cond.type (i + 1) cond c p p' g,
                  ready_conditions-append p.conditions (c ∷ []),
                  compile_condition-ready lib dir cond c f,
                ))
                (ground arith)
        ]
      ]

  path_regexp-ready :
      (m : PathMatch) (path : Bytes) (re : Option lib.Regex)
      → path_regexp lib m path ≡ ok re
      → ready_path m re ≡ true
  path_regexp-ready path_unset path re e = ground arith
  path_regexp-ready path_exact path re e = ground arith
  path_regexp-ready path_prefix path re e = ground arith
  path_regexp-ready path_regex path re e = ground (arith, Option-cases (lib.compile_regex path))
  path_regexp-ready (path_other s) path re e = ground arith

  -- A rule as `Rules` shows it, with the default of its path match.
  abbrev pub shown : Rule → Rule
  shown r = record r {
    scope = record r.scope { path_match = default_path_match r.scope.path_match };
  }

  compile_rule-needs :
      (r : Rule) (c : Compiled lib.Regex)
      → compile_rule lib r ≡ ok c
      → c.needs_body ≡ uses_body c.rule
  unfolding compile_rule uses_body
  compile_rule-needs r c e = elim (Fallible-cases (check_direction r.direction)) [
    | inl (x, f) ↦ absurd (ground arith)
    | inr (u, f) ↦
        elim (Fallible-cases
          (path_regexp lib (default_path_match r.scope.path_match) r.scope.path)) [
            | inl (x, g) ↦ absurd (ground arith)
            | inr (re, g) ↦
                elim (Fallible-cases
                  (compile_conditions lib r.direction 0 r.conditions nothing_yet)) [
                    | inl (x, h) ↦ absurd (ground arith)
                    | inr (p, h) ↦ elim (Fallible-cases (check_statuses p.status_equals)) [
                      | inl (x, k) ↦ absurd (ground arith)
                      | inr (v, k) ↦
                          elim (Fallible-cases (compile_action lib r.direction r.action)) [
                            | inl (x, l) ↦ absurd (ground arith)
                            | inr (ca, l) ↦ ground (
                              arith,
                              compile_conditions-needs r.direction 0 r.conditions nothing_yet p h,
                              replaces_body-is_body_action r.action.type,
                            )
                          ]
                    ]
                  ]
          ]
  ]

  pub compile_rule-ready :
      (r : Rule) (c : Compiled lib.Regex)
      → compile_rule lib r ≡ ok c
      → (is_ready c ≡ true) × (c.rule ≡ shown r)
  unfolding compile_rule
  compile_rule-ready r c e = elim (Fallible-cases (check_direction r.direction)) [
    | inl (x, f) ↦ absurd (ground arith)
    | inr (u, f) ↦
        elim (Fallible-cases
          (path_regexp lib (default_path_match r.scope.path_match) r.scope.path)) [
            | inl (x, g) ↦ absurd (ground arith)
            | inr (re, g) ↦
                elim (Fallible-cases
                  (compile_conditions lib r.direction 0 r.conditions nothing_yet)) [
                    | inl (x, h) ↦ absurd (ground arith)
                    | inr (p, h) ↦ elim (Fallible-cases (check_statuses p.status_equals)) [
                      | inl (x, k) ↦ absurd (ground arith)
                      | inr (v, k) ↦
                          elim (Fallible-cases (compile_action lib r.direction r.action)) [
                            | inl (x, l) ↦ absurd (ground arith)
                            | inr (ca, l) ↦ ground (
                              arith,
                              path_regexp-ready (default_path_match r.scope.path_match) r.scope.path
                                  re g,
                              compile_conditions-ready r.direction 0 r.conditions nothing_yet p refl
                                  h,
                              compile_action-ready lib r.direction r.action ca l,
                              exact_body_holds c (compile_rule-needs r c e),
                            )
                          ]
                    ]
                  ]
          ]
  ]

  direction_cases :
      (d : Direction)
      → check_direction d ≡ ok tt
      → (is_request lib d ≡ for_requests d) × (not (is_request lib d) ≡ for_responses d)
  direction_cases request_direction e = (refl, refl)
  direction_cases response_direction e = (refl, refl)
  direction_cases (other_direction s) e = absurd (ground arith)

  -- A rule that compiles is for requests or for responses.
  pub compile_rule-direction :
      (r : Rule) (c : Compiled lib.Regex)
      → compile_rule lib r ≡ ok c
      → (is_request lib r.direction ≡ for_requests r.direction)
        × (not (is_request lib r.direction) ≡ for_responses r.direction)
  unfolding compile_rule
  compile_rule-direction r c e = elim (Fallible-cases (check_direction r.direction)) [
    | inl (x, f) ↦ absurd (ground arith)
    | inr (tt, f) ↦ direction_cases r.direction f
  ]
