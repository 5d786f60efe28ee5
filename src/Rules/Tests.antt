-- ===== src/Rules/Tests.antt =====
-- Runs of the rules engine, with literal search for regular expressions.
use proxy_scope.Rules.Engine.{write_file_atomic, write_error}
use proxy_scope.Rules.Active.{Kept}
use proxy_scope.Rules.Groups.{groups_finish}
use proxy_scope.Rules.Nil.{compile-ne-panics}
use proxy_scope.Prelude.Word.{lt64}
use proxy_scope.Rules.Sound.{shown}
use proxy_scope.Rules.Sets.{ExactFlags, rules_of, GoodIds}
use proxy_scope.Prelude.{
  arith, map, ◌≢◌, refl, ◌∷◌, some, List, Bool, Option, none, true, ◌≡◌, [], false,
}
use proxy_scope.Prelude.Text.{codes, Bytes, contains, equal, has_prefix, trim_space, to_lower}
use proxy_scope.Http.Message.{Request, Response}
use proxy_scope.Rules.{
  match_exact, condition_status, path_exact, Library, Rule, RulesFile, Scope, request_direction,
  response_direction, path_unset, replace_body, set_status,
}
use proxy_scope.Rules.Compile.{
  referenced_groups, groups, panics, rule_error, err, ok, Compiled, CompiledSet, compile_action,
  is_rule_id,
}
use proxy_scope.Rules.Build.{compile, compile_rules, compile_rule, compile_conditions}
use proxy_scope.Rules.Engine.{
  save_raw, Yaml, Disk, new, apply_request, apply_response, apply_rules, save_rules, save_validated,
}
use proxy_scope.Rules.Match.{matches, matches_scope, all_match, apply, same_direction}
use proxy_scope.Rules.Active.{
  Change, compile_accepts, refused_keeps, rules_return, saves, saves_raw, changed, change,
}
use proxy_scope.Rules.Fired.{may_fire, ids_where, Sublist, request_rules_fire, response_rules_fire}

abbrev literal : Library
literal = record {
  Regex = Bytes;
  compile_regex = λ s. some s;
  match_string = λ re s. contains s re;
  replace_all = λ re body new. new;
  subexp_names = λ re. [];
  num_subexp = λ re. 0;
  parse_url = λ url. some ([], url);
}

abbrev any_scope : Scope
any_scope = record { host = []; path = []; path_match = path_unset; method = [] }

abbrev hide : Rule
hide = record {
  id = 104 ∷ [];
  name = [];
  enabled = true;
  direction = request_direction;
  scope = any_scope;
  conditions = [];
  action = record {
    type = replace_body;
    name = [];
    value = [];
    body = 120 ∷ [];
    pattern = [];
    replacement = [];
    status = 0;
  };
}

abbrev teapot : Rule
teapot = record {
  id = 116 ∷ [];
  name = [];
  enabled = true;
  direction = response_direction;
  scope = any_scope;
  conditions = [];
  action = record {
    type = set_status;
    name = [];
    value = [];
    body = [];
    pattern = [];
    replacement = [];
    status = 418;
  };
}

abbrev two_rules : RulesFile
two_rules = record { version = 1; rules = hide ∷ teapot ∷ [] }

abbrev compiled : Rule → Bool → Compiled Bytes
compiled r needs = record {
  rule = record r { scope = record any_scope { path_match = path_exact } };
  host_wildcard = false;
  host_match = [];
  path_re = none;
  conditions = [];
  action = record { a = r.action; re = none };
  needs_body = needs;
}

abbrev two_compiled : CompiledSet Bytes
two_compiled = record {
  rules = compiled hide true ∷ compiled teapot false ∷ [];
  needs_req_body = true;
  needs_resp_body = false;
}

two_rules-compile : compile literal two_rules ≡ ok two_compiled
unfolding compile compile_rules compile_rule compile_conditions compile_action is_rule_id equal lt64
    has_prefix to_lower trim_space
two_rules-compile = refl

compile_accepts_example :
    GoodIds two_rules.rules
    × (rules_of literal two_compiled ≡ map (shown literal) two_rules.rules)
    × ExactFlags literal two_rules two_compiled
compile_accepts_example = compile_accepts literal two_rules two_compiled two_rules-compile

-- No text parses, and a file prints as nothing.
abbrev no_yaml : Yaml
no_yaml = record { unmarshal = λ s. none; marshal = λ f. some [] }

abbrev good_disk : Disk
good_disk = record {
  mkdir = true;
  create = true;
  write_fails = none;
  close = true;
  rename = true;
  remove = true;
}

abbrev no_file : Option Bytes
no_file = none

-- The disk is full after two bytes of three.
abbrev plain_yaml : Yaml
plain_yaml = record { unmarshal = λ s. some two_rules; marshal = λ f. some [] }

abbrev full_disk : Disk
full_disk = record good_disk { write_fails = some 2 }

abbrev old_file : Option Bytes
old_file = some (7 ∷ [])

raw-refused :
    (change literal plain_yaml (saves_raw full_disk (1 ∷ 2 ∷ 3 ∷ [])) (new literal old_file)).1
    ≡ some write_error
unfolding change save_raw save_validated compile compile_rules compile_rule compile_conditions
    compile_action is_rule_id equal lt64 has_prefix to_lower trim_space write_file_atomic
raw-refused = refl

refused_keeps_example :
    Kept literal true
      (new literal old_file)
      (change literal plain_yaml (saves_raw full_disk (1 ∷ 2 ∷ 3 ∷ [])) (new literal old_file)).0
refused_keeps_example =
    refused_keeps literal plain_yaml (saves_raw full_disk (1 ∷ 2 ∷ 3 ∷ [])) (new literal old_file)
      write_error raw-refused

abbrev post : Request
post = record { method = 80 ∷ []; url = 47 ∷ []; header = []; body = 97 ∷ [] }

abbrev fine : Response
fine = record { status_code = 200; header = []; body = 98 ∷ [] }

abbrev saved : List Change
saved = saves good_disk (hide ∷ teapot ∷ []) ∷ []

rules_return_example :
    (apply_request literal post true (changed literal no_yaml saved (new literal no_file)) ≢ none)
    × (apply_response literal post fine true (changed literal no_yaml saved (new literal no_file))
        ≢ none)
rules_return_example = rules_return literal no_yaml no_file saved post fine true

saved-request :
    apply_request literal post true (changed literal no_yaml saved (new literal no_file))
    ≡ some (record post { body = 120 ∷ [] }, (104 ∷ []) ∷ [])
unfolding change changed save_rules save_validated write_file_atomic compile compile_rules
    compile_rule compile_conditions compile_action is_rule_id equal apply_request apply_response
    apply_rules matches apply lt64 same_direction matches_scope has_prefix to_lower trim_space
    all_match
saved-request = refl

saved-response :
    apply_response literal post fine false (changed literal no_yaml saved (new literal no_file))
    ≡ some (record fine { status_code = 418 }, (116 ∷ []) ∷ [])
unfolding change changed save_rules save_validated write_file_atomic compile compile_rules
    compile_rule compile_conditions compile_action is_rule_id equal apply_request apply_response
    apply_rules matches apply lt64 same_direction matches_scope has_prefix to_lower trim_space
    all_match
saved-response = refl

request_rules_fire_example :
    Sublist ((104 ∷ []) ∷ []) (
      ids_where
        (may_fire literal request_direction true)
        (changed literal no_yaml saved (new literal no_file)).active.rules)
    × (true ≡ false → 120 ∷ [] ≡ post.body)
request_rules_fire_example =
    request_rules_fire literal no_yaml no_file saved post true
      (record post { body = 120 ∷ [] }, (104 ∷ []) ∷ []) saved-request

response_rules_fire_example :
    Sublist ((116 ∷ []) ∷ []) (
      ids_where
        (may_fire literal response_direction false)
        (changed literal no_yaml saved (new literal no_file)).active.rules)
    × (false ≡ false → fine.body ≡ fine.body)
response_rules_fire_example =
    response_rules_fire literal no_yaml no_file saved post fine false
      (record fine { status_code = 418 }, (116 ∷ []) ∷ []) saved-response

-- A status condition that names no status.
abbrev no_status : Rule
no_status = record teapot {
  conditions =
      record { type = condition_status; name = []; match = match_exact; value = []; equals = none }
      ∷ [];
}

compile-ne-panics_example :
    compile literal (record { version = 1; rules = no_status ∷ [] })
    ≢ err (rule_error 0 (116 ∷ []) panics)
compile-ne-panics_example =
    compile-ne-panics literal (record { version = 1; rules = no_status ∷ [] }) 0 (116 ∷ [])

groups_finish_example : groups 20 (codes "a$1${x}$$") ≡ some (referenced_groups (codes "a$1${x}$$"))
groups_finish_example = groups_finish 20 (codes "a$1${x}$$") (omega arith)
