-- ===== src/Rules/Sets.antt =====
-- What a rules file that compiled guarantees.
use proxy_scope.Rules.Ready.{exact_body_lem}
use proxy_scope.Rules.Wants.{
  any_rule, wants_request_body, wants_response_body, for_requests, for_responses, uses_body,
}
use proxy_scope.Rules.Ready.{exact_body}
use proxy_scope.Rules.Sound.{compile_rule-direction}
use mathlib.Core.List.{append-nil, append_assoc}
use proxy_scope.Prelude.{
  ◌∙◌, ◌+◌, inr, inl, ℕ, refl, ◌||◌, ap, ◌≢◌, not, [], false, true, map, arith, ◌++◌, ◌∷◌, ◌≡◌,
  List,
}
use proxy_scope.Prelude.Text.{equal_iff, Bytes}
use proxy_scope.Rules.Sound.{compile_rule-ready, Fallible-cases, shown}
use proxy_scope.Rules.Ready.{all_ready-append, all_ready}
use proxy_scope.Rules.Build.{no_rules, compile, compile_rule, compile_rules, put_rule, is_request}
use proxy_scope.Rules.Compile.{ok, Compiled, CompiledSet, is_rule_id, member}
use proxy_scope.Rules.{RulesFile, Library, Rule}

abbrev ids_of : List Rule → List Bytes
ids_of [] = []
ids_of (r ∷ rs) = r.id ∷ ids_of rs

-- Every id is a rule id, and stands once.
abbrev pub GoodIds : List Rule → Type 0
GoodIds [] = Unit {0}
GoodIds (r ∷ rs) =
    (r.id ≢ []) × (is_rule_id r.id ≡ true) × (member r.id (ids_of rs) ≡ false) × GoodIds rs

module _ (lib : Library) where
  -- Both flags of a set say whether some rule of the file wants the body.
  abbrev pub ExactFlags : RulesFile → CompiledSet lib.Regex → Type 0
  ExactFlags f set =
      (set.needs_req_body ≡ any_rule wants_request_body f.rules)
      × (set.needs_resp_body ≡ any_rule wants_response_body f.rules)

  -- The flags of a set after the rules that are still to come.
  abbrev AddsFlags : List Rule → CompiledSet lib.Regex → CompiledSet lib.Regex → Type 0
  AddsFlags rs set out =
      (out.needs_req_body ≡ set.needs_req_body || any_rule wants_request_body rs)
      × (out.needs_resp_body ≡ set.needs_resp_body || any_rule wants_response_body rs)

  -- The rules as `Rules` shows them.
  abbrev pub rules_of : CompiledSet lib.Regex → List Rule
  rules_of set = map (λ (c : Compiled lib.Regex). c.rule) set.rules

  abbrev Step : List Bytes → List Rule → CompiledSet lib.Regex → CompiledSet lib.Regex → Type 0
  Step seen rs set out =
      (all_ready out.rules ≡ true)
      × AddsFlags rs set out
      × (rules_of out ≡ rules_of set ++ map (shown lib) rs)
      × ((x : Bytes) → member x seen ≡ true → member x (ids_of rs) ≡ false)
      × GoodIds rs

  map-append :
      (xs ys : List (Compiled lib.Regex))
      → map (λ (c : Compiled lib.Regex). c.rule) (xs ++ ys)
        ≡ map (λ (c : Compiled lib.Regex). c.rule) xs ++ map (λ (c : Compiled lib.Regex). c.rule) ys
  map-append [] ys = refl
  map-append (x ∷ xs) ys = ap (◌∷◌ x.rule) (map-append xs ys)

  shown_uses : (r : Rule) → uses_body (shown lib r) ≡ uses_body r
  unfolding uses_body
  shown_uses r = refl

  put_rule-AddsFlags :
      (r : Rule) (rs : List Rule) (c : Compiled lib.Regex) (set out : CompiledSet lib.Regex)
      → exact_body c ≡ true
      → c.rule ≡ shown lib r
      → (is_request lib r.direction ≡ for_requests r.direction)
        × (not (is_request lib r.direction) ≡ for_responses r.direction)
      → AddsFlags rs (put_rule lib c r set) out
      → AddsFlags (r ∷ rs) set out
  put_rule-AddsFlags r rs c set out b e d x =
      let n : c.needs_body ≡ uses_body r = exact_body_lem c b ∙ ap uses_body e ∙ shown_uses r in
      (ground (arith, n, d.0, x.0), ground (arith, n, d.1, x.1))

  not_seen :
      (x : Bytes) (r : Rule) (rs : List Rule) (seen : List Bytes)
      → member r.id seen ≡ false
      → member x seen ≡ true
      → ((y : Bytes) → member y (r.id ∷ seen) ≡ true → member y (ids_of rs) ≡ false)
      → member x (ids_of (r ∷ rs)) ≡ false
  not_seen x r rs seen f m next = ground (arith, equal_iff r.id x, next x)

  compile_rules-Step :
      (i : ℕ) (seen : List Bytes) (rs : List Rule) (set out : CompiledSet lib.Regex)
      → all_ready set.rules ≡ true
      → compile_rules lib i seen rs set ≡ ok out
      → Step seen rs set out
  unfolding compile_rules
  compile_rules-Step i seen [] set out a e = ground (arith, append-nil (rules_of set))
  compile_rules-Step i seen (r ∷ rs) set out a e = elim (Fallible-cases (compile_rule lib r)) [
    | inl (y, f) ↦ absurd (ground arith)
    | inr (c, f) ↦
        let s =
          compile_rules-Step (i + 1) (r.id ∷ seen) rs (put_rule lib c r set) out
            (ground (arith, all_ready-append set.rules (c ∷ []), compile_rule-ready lib r c f))
            (ground arith) in
        (
          s.0,
          put_rule-AddsFlags r rs c set out (ground (arith, compile_rule-ready lib r c f))
              (compile_rule-ready lib r c f).1 (compile_rule-direction lib r c f) s.1,
          s.2
              ∙ ap (◌++ map (shown lib) rs) (map-append set.rules (c ∷ []))
              ∙ append_assoc (rules_of set) (c.rule ∷ []) (map (shown lib) rs)
              ∙ ap (λ z. rules_of set ++ z ∷ map (shown lib) rs) (compile_rule-ready lib r c f).1,
          (λ y m. not_seen y r rs seen (ground arith) m s.3),
          (
            ground (arith, equal_iff r.id []),
            ground arith,
            s.3 r.id (ground (arith, equal_iff r.id r.id)),
            s.4,
          ),
        )
  ]

  pub compile-Step :
      (f : RulesFile) (set : CompiledSet lib.Regex)
      → compile lib f ≡ ok set
      → Step [] f.rules (no_rules lib) set
  unfolding compile
  compile-Step f set e = compile_rules-Step 0 [] f.rules (no_rules lib) set refl (ground arith)
