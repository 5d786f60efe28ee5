-- ===== src/Rules.antt =====
use proxy_scope.Prelude.{Bool, Option, List, ℕ}
use proxy_scope.Prelude.Text.{Bytes}
-- internal/model/rules.go: the rules as they stand in the rules file. The string types of the source
-- are enumerations with a constructor for every other string. An int is its 64-bit pattern.
pub mod Wants
pub mod Compile
pub mod Build
pub mod Match
pub mod Engine
pub mod Ready
pub mod Total
pub mod Sound
pub mod Sets
pub mod Active
pub mod Fired
pub mod Nil
pub mod Groups
mod Tests

-- Package regexp: what the rules use of it. A nil *Regexp is `none` of an option.
pub record Library : Type 1 where
  pub Regex : Type 0
  pub compile_regex : Bytes → Option Regex
  pub match_string : Regex → Bytes → Bool
  pub replace_all : Regex → Bytes → Bytes → Bytes
  pub subexp_names : Regex → List Bytes
  pub num_subexp : Regex → ℕ
  -- `url.Parse`: the lower-case host name and the path.
  pub parse_url : Bytes → Option (Bytes × Bytes)

pub data Direction : Type 0 where
  request_direction response_direction : Direction
  other_direction : Bytes → Direction

pub data PathMatch : Type 0 where
  path_unset path_exact path_prefix path_regex : PathMatch
  path_other : Bytes → PathMatch

pub data TextMatch : Type 0 where
  match_exact match_contains match_regex : TextMatch
  match_other : Bytes → TextMatch

pub data ConditionType : Type 0 where
  condition_header condition_body condition_status : ConditionType
  condition_other : Bytes → ConditionType

pub data ActionType : Type 0 where
  replace_header add_header remove_header replace_body body_regex_replace set_status : ActionType
  action_other : Bytes → ActionType

pub record Scope : Type 0 where
  pub host : Bytes
  pub path : Bytes
  pub path_match : PathMatch
  pub method : Bytes

pub record Condition : Type 0 where
  pub type : ConditionType
  pub name : Bytes
  pub match : TextMatch
  pub value : Bytes
  pub equals : Option ℕ

pub record Action : Type 0 where
  pub type : ActionType
  pub name : Bytes
  pub value : Bytes
  pub body : Bytes
  pub pattern : Bytes
  pub replacement : Bytes
  pub status : ℕ

pub record Rule : Type 0 where
  pub id : Bytes
  pub name : Bytes
  pub enabled : Bool
  pub direction : Direction
  pub scope : Scope
  pub conditions : List Condition
  pub action : Action

pub record RulesFile : Type 0 where
  pub version : ℕ
  pub rules : List Rule
