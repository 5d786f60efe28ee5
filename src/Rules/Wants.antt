-- ===== src/Rules/Wants.antt =====
-- Which rules of a rules file need the body of a message, read off the rule as it is written, without compile.
use proxy_scope.Prelude.{Bool, true, false, List, [], ◌∷◌, ◌||◌, ◌&&◌}
use proxy_scope.Rules.{
  Rule, Condition, Direction, request_direction, response_direction, other_direction, ConditionType,
  condition_header, condition_body, condition_status, condition_other, ActionType, replace_header,
  add_header, remove_header, replace_body, body_regex_replace, set_status, action_other,
}

abbrev pub is_body_condition : ConditionType → Bool
is_body_condition condition_body = true
is_body_condition condition_header = false
is_body_condition condition_status = false
is_body_condition (condition_other s) = false

abbrev pub any_body : List Condition → Bool
any_body [] = false
any_body (cond ∷ conds) = is_body_condition cond.type || any_body conds

abbrev pub is_body_action : ActionType → Bool
is_body_action replace_body = true
is_body_action body_regex_replace = true
is_body_action replace_header = false
is_body_action add_header = false
is_body_action remove_header = false
is_body_action set_status = false
is_body_action (action_other s) = false

-- A condition looks at the body, or the action changes it.
unfoldable pub uses_body : Rule → Bool
uses_body r = any_body r.conditions || is_body_action r.action.type

abbrev pub for_requests : Direction → Bool
for_requests request_direction = true
for_requests response_direction = false
for_requests (other_direction s) = false

abbrev pub for_responses : Direction → Bool
for_responses request_direction = false
for_responses response_direction = true
for_responses (other_direction s) = false

abbrev pub wants_request_body : Rule → Bool
wants_request_body r = r.enabled && uses_body r && for_requests r.direction

abbrev pub wants_response_body : Rule → Bool
wants_response_body r = r.enabled && uses_body r && for_responses r.direction

abbrev pub any_rule : (Rule → Bool) → List Rule → Bool
any_rule test [] = false
any_rule test (r ∷ rs) = test r || any_rule test rs
