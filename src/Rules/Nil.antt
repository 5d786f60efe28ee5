-- ===== src/Rules/Nil.antt =====
-- Compilation follows no nil pointer.
use proxy_scope.Prelude.{◌+◌, Option-cases, true, ◌∷◌, inr, [], inl, arith, ◌≡◌, ℕ, ◌≢◌, List}
use proxy_scope.Prelude.Text.{Bytes}
use proxy_scope.Rules.Sound.{Fallible-cases}
use proxy_scope.Rules.Ready.{ready_condition, compile_condition-ready}
use proxy_scope.Rules.Build.{
  nothing_yet, note_condition, path_regexp, default_path_match, check_direction, check_statuses,
  all_same, Progress, compile_conditions, compile_rule, compile_rules, compile, put_rule, no_rules,
}
use proxy_scope.Rules.Compile.{
  panics, rule_error, err, CompiledCondition, CompiledSet, compile_condition, compile_action,
}
use proxy_scope.Rules.{
  Library, Direction, request_direction, response_direction, other_direction, Condition, Rule,
  RulesFile, PathMatch, TextMatch, ConditionType, path_unset, path_exact, path_prefix, path_regex,
  path_other, match_exact, match_contains, match_regex, match_other, condition_header,
  condition_body, condition_status, condition_other,
}

module _ {R : Type 0} where
  exact-ne-panics :
      (m : TextMatch) (i : ℕ) (cond : Condition) (c : CompiledCondition R) (p : Progress R)
      → note_condition condition_header i (record cond { match = m }) c p ≢ err panics
  exact-ne-panics match_exact i cond c p = ground arith
  exact-ne-panics match_contains i cond c p = ground arith
  exact-ne-panics match_regex i cond c p = ground arith
  exact-ne-panics (match_other s) i cond c p = ground arith

  note-ne-panics :
      (type : ConditionType) (i : ℕ) (cond : Condition) (c : CompiledCondition R) (p : Progress R)
      → ready_condition (record c { c = record cond { type = type } }) ≡ true
      → note_condition type i cond c p ≢ err panics
  note-ne-panics condition_header i cond c p r = exact-ne-panics cond.match i cond c p
  note-ne-panics condition_body i cond c p r = ground arith
  note-ne-panics condition_status i cond c p r = ground (arith, Option-cases cond.equals)
  note-ne-panics (condition_other s) i cond c p r = ground arith

all_same-ne-panics : (n : ℕ) (ns : List ℕ) → all_same n ns ≢ err panics
unfolding all_same
all_same-ne-panics n [] = ground arith
all_same-ne-panics n (m ∷ ns) = ground (arith, all_same-ne-panics n ns)

statuses-ne-panics : (ns : List ℕ) → check_statuses ns ≢ err panics
statuses-ne-panics [] = ground arith
statuses-ne-panics (n ∷ ns) = all_same-ne-panics n ns

direction-ne-panics : (d : Direction) → check_direction d ≢ err panics
direction-ne-panics request_direction = ground arith
direction-ne-panics response_direction = ground arith
direction-ne-panics (other_direction s) = ground arith

module _ (lib : Library) where
  path-ne-panics : (m : PathMatch) (path : Bytes) → path_regexp lib m path ≢ err panics
  path-ne-panics path_unset path = ground arith
  path-ne-panics path_exact path = ground arith
  path-ne-panics path_prefix path = ground arith
  path-ne-panics path_regex path = ground (arith, Option-cases (lib.compile_regex path))
  path-ne-panics (path_other s) path = ground arith

  conditions-ne-panics :
      (dir : Direction) (i : ℕ) (conds : List Condition) (p : Progress lib.Regex)
      → compile_conditions lib dir i conds p ≢ err panics
  unfolding compile_conditions
  conditions-ne-panics dir i [] p = ground arith
  conditions-ne-panics dir i (cond ∷ conds) p =
      elim (Fallible-cases (compile_condition lib dir cond)) [
        | inl (x, f) ↦ ground arith
        | inr (c, f) ↦ elim (Fallible-cases (note_condition cond.type (i + 1) cond c p)) [
          | inl (x, g) ↦ ground (
            arith,
            note-ne-panics cond.type (i + 1) cond c p,
            compile_condition-ready lib dir cond c f,
          )
          | inr (p', g) ↦ ground (arith, conditions-ne-panics dir (i + 1) conds p')
        ]
      ]

  rule-ne-panics : (r : Rule) → compile_rule lib r ≢ err panics
  unfolding compile_rule
  rule-ne-panics r = elim (Fallible-cases (check_direction r.direction)) [
    | inl (x, f) ↦ ground (arith, direction-ne-panics r.direction)
    | inr (u, f) ↦
        elim (Fallible-cases
          (path_regexp lib (default_path_match r.scope.path_match) r.scope.path)) [
            | inl (x, g) ↦
                ground (arith, path-ne-panics (default_path_match r.scope.path_match) r.scope.path)
            | inr (re, g) ↦
                elim (Fallible-cases
                  (compile_conditions lib r.direction 0 r.conditions nothing_yet)) [
                    | inl (x, h) ↦
                        ground (arith, conditions-ne-panics r.direction 0 r.conditions nothing_yet)
                    | inr (p, h) ↦ elim (Fallible-cases (check_statuses p.status_equals)) [
                      | inl (x, k) ↦ ground (arith, statuses-ne-panics p.status_equals)
                      | inr (v, k) ↦
                          elim (Fallible-cases (compile_action lib r.direction r.action)) [
                            | inl (x, l) ↦ ground arith
                            | inr (ca, l) ↦ ground arith
                          ]
                    ]
                  ]
          ]
  ]

  rules-ne-panics :
      (i : ℕ) (seen : List Bytes) (rs : List Rule) (set : CompiledSet lib.Regex) (n : ℕ)
      (id : Bytes)
      → compile_rules lib i seen rs set ≢ err (rule_error n id panics)
  unfolding compile_rules
  rules-ne-panics i seen [] set n id = ground arith
  rules-ne-panics i seen (r ∷ rs) set n id = elim (Fallible-cases (compile_rule lib r)) [
    | inl (x, f) ↦ ground (arith, rule-ne-panics r)
    | inr (c, f) ↦
        ground (arith, rules-ne-panics (i + 1) (r.id ∷ seen) rs (put_rule lib c r set) n id)
  ]

  -- Whatever stands in a rules file, and whatever regular expressions compile, the validation follows no nil pointer.
  pub compile-ne-panics :
      (f : RulesFile) (n : ℕ) (id : Bytes) → compile lib f ≢ err (rule_error n id panics)
  unfolding compile
  compile-ne-panics f n id = ground (arith, rules-ne-panics 0 [] f.rules (no_rules lib) n id)
