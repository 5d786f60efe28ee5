-- ===== src/Rules/Fired.antt =====
-- Which rules fire, and what they leave alone.
use proxy_scope.Rules.Ready.{all_ready-uses_body}
use proxy_scope.Rules.Wants.{uses_body}
use proxy_scope.Http.Header.{Header}
use proxy_scope.Prelude.{
  ◌∙◌, refl, inr, inl, not, if◌then◌else◌, Bool-cases, ◌||◌, ℕ, arith, Option-cases, ◌&&◌, some,
  false, [], true, ◌∷◌, ◌≡◌, Bool, Option, List,
}
use proxy_scope.Prelude.Text.{Bytes}
use proxy_scope.Http.Message.{Request, Response}
use proxy_scope.Rules.Active.{Change, changed, changed-Ready}
use proxy_scope.Rules.Ready.{all_ready}
use proxy_scope.Rules.Build.{replaces_body}
use proxy_scope.Rules.Match.{Target, matches, apply, same_direction}
use proxy_scope.Rules.Engine.{
  Yaml, new, apply_rules, apply_request, apply_response, target_of, next_status,
}
use proxy_scope.Rules.Compile.{Compiled}
use proxy_scope.Rules.{
  Library, Direction, request_direction, response_direction, Action, ActionType, replace_header,
  add_header, remove_header, replace_body, body_regex_replace, set_status, action_other,
}

-- The ids of the rules that a test accepts, in file order.
abbrev pub ids_where : {R : Type 0} → (Compiled R → Bool) → List (Compiled R) → List Bytes
ids_where test [] = []
ids_where test (c ∷ cs) = if test c then c.rule.id ∷ ids_where test cs else ids_where test cs

-- A list that leaves some entries of another one out.
pub data Sublist : List Bytes → List Bytes → Type 0 where
  nothing : Sublist [] []
  keep : {x : Bytes} {xs ys : List Bytes} → Sublist xs ys → Sublist (x ∷ xs) (x ∷ ys)
  skip : {x : Bytes} {xs ys : List Bytes} → Sublist xs ys → Sublist xs (x ∷ ys)

module _ (lib : Library) where
  -- Enabled rules of the direction, and without a body those that neither look at it nor change it.
  abbrev pub may_fire : Direction → Bool → Compiled lib.Regex → Bool
  may_fire dir available c =
      same_direction c.rule.direction dir && c.rule.enabled && (available || not (uses_body c.rule))

  matches-may_fire :
      (c : Compiled lib.Regex) (dir : Direction) (t : Target)
      → c.needs_body ≡ uses_body c.rule
      → matches lib c dir t ≡ some true
      → may_fire dir t.body_available c ≡ true
  unfolding matches
  matches-may_fire c dir t r e = ground arith

  apply_as-body :
      (type : ActionType) (a : Action) (re : Option lib.Regex) (h : Header) (body : Bytes)
      (status : ℕ) (out : Header × Bytes × ℕ)
      → replaces_body type ≡ false
      → apply lib (record { a = record a { type = type }; re = re }) h body status ≡ some out
      → out.1 ≡ body
  unfolding apply
  apply_as-body replace_header a re h body status out e f = ground arith
  apply_as-body add_header a re h body status out e f = ground arith
  apply_as-body remove_header a re h body status out e f = ground arith
  apply_as-body replace_body a re h body status out e f = ground arith
  apply_as-body body_regex_replace a re h body status out e f = ground arith
  apply_as-body set_status a re h body status out e f = ground arith
  apply_as-body (action_other s) a re h body status out e f = ground arith

  -- What one pass over the rules leaves.
  Pass : Direction → List (Compiled lib.Regex) → Target → Target × List Bytes → Type 0
  Pass dir cs t out =
      Sublist out.1 (ids_where (may_fire dir t.body_available) cs)
      × (t.body_available ≡ false → out.0.body ≡ t.body)

  sublist_skip :
      (test : Compiled lib.Regex → Bool) (c : Compiled lib.Regex) (cs : List (Compiled lib.Regex))
      (xs : List Bytes)
      → Sublist xs (ids_where test cs)
      → Sublist xs (ids_where test (c ∷ cs))
  sublist_skip test c cs xs s = elim (Bool-cases (test c)) [
    | inl e ↦ rw e (skip s)
    | inr e ↦ rw e s
  ]

  fires :
      (dir : Direction) (c : Compiled lib.Regex) (cs : List (Compiled lib.Regex)) (t : Target)
      (out : Target × List Bytes) (o : Header × Bytes × ℕ) (rest : Target × List Bytes)
      → all_ready (c ∷ cs) ≡ true
      → matches lib c dir t ≡ some true
      → apply lib c.action t.header t.body t.status ≡ some o
      → apply_rules lib dir cs
          (record t { header = o.0; body = o.1; status = next_status lib dir t.status o.2 })
        ≡ some rest
      → Pass dir cs
          (record t { header = o.0; body = o.1; status = next_status lib dir t.status o.2 })
          rest
      → out ≡ (rest.0, c.rule.id ∷ rest.1)
      → Pass dir (c ∷ cs) t out
  unfolding Pass
  fires dir c cs t out o rest r f h k p e =
      let m = matches-may_fire c dir t (all_ready-uses_body c cs r) f in
      let n = all_ready-uses_body c cs r in
      rw (e, m)
        (
          keep p.0,
          λ b.
              p.1 b
              ∙ apply_as-body c.action.a.type c.action.a c.action.re t.header t.body t.status o
                  (ground (arith, m, n)) h,
        )

  apply_rules-Pass :
      (dir : Direction) (cs : List (Compiled lib.Regex)) (t : Target) (out : Target × List Bytes)
      → all_ready cs ≡ true
      → apply_rules lib dir cs t ≡ some out
      → Pass dir cs t out
  unfolding apply_rules Pass
  apply_rules-Pass dir [] t out r e = rw (out_is e) (nothing, λ h. refl)
    where
      out_is : apply_rules lib dir [] t ≡ some out → out ≡ (t, [])
      out_is k = ground arith
  apply_rules-Pass dir (c ∷ cs) t out r e = elim (Option-cases (matches lib c dir t)) [
    | inl f ↦ absurd (ground arith)
    | inr (m, f) ↦ elim (Bool-cases m) [
      | inr g ↦
          let p = apply_rules-Pass dir cs t out (ground arith) (ground arith) in
          (sublist_skip (may_fire dir t.body_available) c cs out.1 p.0, p.1)
      | inl g ↦ elim (Option-cases (apply lib c.action t.header t.body t.status)) [
        | inl h ↦ absurd (ground arith)
        | inr (o, h) ↦
            let t' : Target = record t {
              header = o.0;
              body = o.1;
              status = next_status lib dir t.status o.2;
            } in
            elim (Option-cases (apply_rules lib dir cs t')) [
              | inl k ↦ absurd (ground arith)
              | inr (rest, k) ↦
                  let p = apply_rules-Pass dir cs t' rest (ground arith) k in
                  fires dir c cs t out o rest r (ground arith) h k p (ground arith)
            ]
      ]
    ]
  ]

  -- After any loads and saves, when the rules are applied to a request, the rules that fire are
  -- enabled request rules of the active set, in file order and each at most as often as it stands
  -- there; if the body was not buffered, none of them has a condition on the body or an action that changes
  -- it, and the body stays as it is.
  pub request_rules_fire :
      (yaml : Yaml) (file : Option Bytes) (cs : List Change) (req : Request) (available : Bool)
      (out : Request × List Bytes)
      → apply_request lib req available (changed lib yaml cs (new lib file)) ≡ some out
      → Sublist out.1 (
          ids_where
            (may_fire request_direction available)
            (changed lib yaml cs (new lib file)).active.rules)
        × (available ≡ false → out.0.body ≡ req.body)
  unfolding apply_request Pass
  request_rules_fire yaml file cs req available out e =
      elim (Option-cases (
        apply_rules lib request_direction (changed lib yaml cs (new lib file)).active.rules
          (target_of lib req req.header req.body 0 available))) [
            | inl k ↦ absurd (ground arith)
            | inr (r, k) ↦
                let p =
                  apply_rules-Pass request_direction _ _ r
                    (changed-Ready lib yaml cs (new lib file) refl) k in
                (ground (arith), ground arith)
          ]

  -- After any loads and saves, when the rules are applied to a response, the rules that fire are
  -- enabled response rules of the active set, in file order and each at most as often as it stands
  -- there; if the body was not buffered, none of them has a condition on the body or an action that changes
  -- it, and the body stays as it is.
  pub response_rules_fire :
      (yaml : Yaml) (file : Option Bytes) (cs : List Change) (req : Request) (resp : Response)
      (available : Bool) (out : Response × List Bytes)
      → apply_response lib req resp available (changed lib yaml cs (new lib file)) ≡ some out
      → Sublist out.1 (
          ids_where
            (may_fire response_direction available)
            (changed lib yaml cs (new lib file)).active.rules)
        × (available ≡ false → out.0.body ≡ resp.body)
  unfolding apply_response Pass
  response_rules_fire yaml file cs req resp available out e =
      elim (Option-cases (
        apply_rules lib response_direction (changed lib yaml cs (new lib file)).active.rules
          (target_of lib req resp.header resp.body resp.status_code available))) [
            | inl k ↦ absurd (ground arith)
            | inr (r, k) ↦
                let p =
                  apply_rules-Pass response_direction _ _ r
                    (changed-Ready lib yaml cs (new lib file) refl) k in
                (ground arith, ground arith)
          ]
