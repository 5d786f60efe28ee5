-- ===== src/Rules/Engine.antt =====
-- internal/rules/engine.go: the active rule set, its replacement, and its application to messages. Package yaml is a
-- parameter, and so is what the file system answers to each step of `writeFileAtomic`.
use proxy_scope.Http.Header.{Header}
use proxy_scope.Prelude.{
  take, ◌++◌, [], true, false, ◌∷◌, not, none, some, map, if◌then◌else◌, List, ℕ, Bool, Option,
}
use proxy_scope.Prelude.Text.{Bytes}
use proxy_scope.Http.Message.{Request, Response}
use proxy_scope.Rules.Match.{◌>>=◌, Target, matches, apply, scope_of}
use proxy_scope.Rules.Build.{compile, no_rules}
use proxy_scope.Rules.Compile.{Compiled, CompiledSet, Fallible, Error, ok, err}
use proxy_scope.Rules.{
  other_direction, Library, Direction, request_direction, response_direction, Rule, RulesFile,
}

-- What `os.ReadFile` returns.
pub data Read : Type 0 where
  not_exist : Read
  read_failed : Read
  contents : Bytes → Read

pub data EngineError : Type 0 where
  read_error encode_error parse_error mkdir_error write_error : EngineError
  invalid : Error → EngineError

-- Package yaml.
pub record Yaml : Type 0 where
  pub unmarshal : Bytes → Option RulesFile
  pub marshal : RulesFile → Option Bytes

-- What the file system answers: whether the directory is made and the temporary file created, how many bytes a write
-- puts down before it fails (`none` if it does not), and whether the close, the rename and the removal succeed.
pub record Disk : Type 0 where
  pub mkdir : Bool
  pub create : Bool
  pub write_fails : Option ℕ
  pub close : Bool
  pub rename : Bool
  pub remove : Bool

-- The text of the rules file, if there is one, and the temporary files beside it, the latest first.
pub record Files : Type 0 where
  pub file : Option Bytes
  pub temps : List Bytes

abbrev pub create_temp : Files → Files
create_temp fs = record fs { temps = [] ∷ fs.temps }

abbrev write_first : Bytes → List Bytes → List Bytes
write_first data_ [] = []
write_first data_ (t ∷ ts) = (t ++ data_) ∷ ts

abbrev pub write_temp : Bytes → Files → Files
write_temp data_ fs = record fs { temps = write_first data_ fs.temps }

abbrev without_first : List Bytes → List Bytes
without_first [] = []
without_first (t ∷ ts) = ts

-- The deferred os.Remove, whose error is ignored.
abbrev pub remove_temp : Disk → Files → Files
remove_temp disk fs = if disk.remove then record fs { temps = without_first fs.temps } else fs

abbrev move_first : List Bytes → Files → Files
move_first [] fs = fs
move_first (t ∷ ts) fs = record { file = some t; temps = ts }

-- After the rename the removal finds nothing under the old name.
abbrev pub rename_temp : Files → Files
rename_temp fs = move_first fs.temps fs

-- The files afterwards, and whether all went well.
unfoldable pub write_file_atomic : Disk → Bytes → Files → Files × Bool
write_file_atomic disk data_ fs =
    if not disk.create
    then (fs, false)
    else let tmp = create_temp fs in
      elim disk.write_fails [
        | some n ↦ (remove_temp disk (write_temp (take n data_) tmp), false)
        | none ↦
            let written = write_temp data_ tmp in
            if not disk.close
            then (remove_temp disk written, false)
            else if not disk.rename
            then (remove_temp disk written, false)
            else (rename_temp written, true)
      ]

module _ (lib : Library) where
  pub record Engine : Type 0 where
    pub active : CompiledSet lib.Regex
    pub files : Files

  abbrev pub new : Option Bytes → Engine
  new file = record { active = no_rules lib; files = record { file = file; temps = [] } }

  abbrev pub refused : EngineError → Engine → Engine × Option EngineError
  refused e s = (s, some e)

  abbrev activate : Fallible Error (CompiledSet lib.Regex) → Engine → Engine × Option EngineError
  activate (ok set) s = (record s { active = set }, none)
  activate (err e) s = refused (invalid e) s

  unfoldable pub load_bytes : Yaml → Bytes → Engine → Engine × Option EngineError
  load_bytes yaml data_ s = elim (yaml.unmarshal data_) [
    | none ↦ refused parse_error s
    | some f ↦ activate (compile lib f) s
  ]

  unfoldable pub load : Yaml → Read → Engine → Engine × Option EngineError
  load yaml not_exist s = (record s { active = no_rules lib }, none)
  load yaml read_failed s = refused read_error s
  load yaml (contents text) s = load_bytes yaml text s

  -- The new set is active only if the file was written.
  abbrev pub stored : CompiledSet lib.Regex → Engine → Files × Bool → Engine × Option EngineError
  stored set s (fs, true) = (record { active = set; files = fs }, none)
  stored set s (fs, false) = refused write_error (record s { files = fs })

  abbrev store_file : Disk → Bytes → CompiledSet lib.Regex → Engine → Engine × Option EngineError
  store_file disk text set s =
      if not disk.mkdir
      then refused mkdir_error s
      else stored set s (write_file_atomic disk text s.files)

  abbrev save_compiled :
      Fallible Error (CompiledSet lib.Regex) → Disk → Bytes → Engine → Engine × Option EngineError
  save_compiled (ok set) disk text s = store_file disk text set s
  save_compiled (err e) disk text s = refused (invalid e) s

  unfoldable pub save_validated : RulesFile → Disk → Bytes → Engine → Engine × Option EngineError
  save_validated f disk text s = save_compiled (compile lib f) disk text s

  unfoldable pub save_rules : Yaml → Disk → List Rule → Engine → Engine × Option EngineError
  save_rules yaml disk rs s =
      let f : RulesFile = record { version = 1; rules = rs } in
      elim (yaml.marshal f) [
        | none ↦ refused encode_error s
        | some text ↦ save_validated f disk text s
      ]

  unfoldable pub save_raw : Yaml → Disk → Bytes → Engine → Engine × Option EngineError
  save_raw yaml disk text s = elim (yaml.unmarshal text) [
    | none ↦ refused parse_error s
    | some f ↦ save_validated f disk text s
  ]

  abbrev pub rules : Engine → List Rule
  rules s = map (λ c. c.rule) s.active.rules

  abbrev pub target_of : Request → Header → Bytes → ℕ → Bool → Target
  target_of req h body status available =
      let scope = scope_of lib req.url req.method in
      record {
        host = scope.0;
        path = scope.1;
        method = scope.2;
        header = h;
        body = body;
        status = status;
        body_available = available;
      }

  -- `ApplyRequest` leaves out the status that an action returns.
  abbrev pub next_status : Direction → ℕ → ℕ → ℕ
  next_status response_direction old new = new
  next_status request_direction old new = old
  next_status (other_direction s) old new = old

  -- The loop of `ApplyRequest` and of `ApplyResponse`: the target afterwards, and the ids that fired.
  unfoldable pub apply_rules :
      Direction → List (Compiled lib.Regex) → Target → Option (Target × List Bytes)
  apply_rules dir [] t = some (t, [])
  apply_rules dir (c ∷ cs) t = matches lib c dir t >>= λ m. elim m [
    | false ↦ apply_rules dir cs t
    | true ↦ apply lib c.action t.header t.body t.status >>= λ out.
        apply_rules dir cs
          (record t { header = out.0; body = out.1; status = next_status dir t.status out.2 })
        >>= λ rest. some (rest.0, c.rule.id ∷ rest.1)
  ]

  unfoldable pub apply_request : Request → Bool → Engine → Option (Request × List Bytes)
  apply_request req available s = do
    (t, fired) ←
        apply_rules request_direction s.active.rules (target_of req req.header req.body 0 available)
    some (record req { header = t.header; body = t.body }, fired)

  unfoldable pub apply_response :
      Request → Response → Bool → Engine → Option (Response × List Bytes)
  apply_response req resp available s = do
    (t, fired) ←
        apply_rules response_direction s.active.rules
          (target_of req resp.header resp.body resp.status_code available)
    some (record { status_code = t.status; header = t.header; body = t.body }, fired)

  abbrev pub needs_request_body : Engine → Bool
  needs_request_body s = s.active.needs_req_body

  abbrev pub needs_response_body : Engine → Bool
  needs_response_body s = s.active.needs_resp_body

  -- The text of the rules file, or an empty file.
  unfoldable pub read_raw : Yaml → Read → Fallible EngineError Bytes
  read_raw yaml (contents text) = ok text
  read_raw yaml read_failed = err read_error
  read_raw yaml not_exist = elim (yaml.marshal (record { version = 1; rules = [] })) [
    | none ↦ err encode_error
    | some text ↦ ok text
  ]
