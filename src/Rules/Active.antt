-- ===== src/Rules/Active.antt =====
-- The rules engine through its life: every state that loads and saves reach.
use proxy_scope.Rules.Engine.{stored}
use proxy_scope.Rules.Engine.{Files, write_file_atomic}
use proxy_scope.Prelude.{
  ℕ, ◌⊎◌, false, Bool-cases, none, inr, ◌≢◌, inl, Option-cases, Bool, refl, arith, [], some, ◌∷◌,
  true, map, List, Option, ◌≡◌,
}
use proxy_scope.Prelude.Text.{Bytes}
use proxy_scope.Http.Message.{Request, Response}
use proxy_scope.Rules.Sets.{compile-Step, ExactFlags, rules_of, GoodIds}
use proxy_scope.Rules.Sound.{Fallible-cases, shown}
use proxy_scope.Rules.Total.{apply_rules-total}
use proxy_scope.Rules.Ready.{all_ready}
use proxy_scope.Rules.Build.{compile}
use proxy_scope.Rules.Engine.{
  target_of, read_failed, not_exist, contents, Engine, Read, EngineError, Yaml, Disk, new, load,
  load_bytes, save_rules, save_raw, save_validated, apply_request, apply_response,
}
use proxy_scope.Rules.Compile.{ok, CompiledSet}
use proxy_scope.Rules.{Library, Rule, RulesFile, request_direction, response_direction}

-- The calls that change the engine, with what YAML and the file system answer.
pub data Change : Type 0 where
  loads : Read → Change
  saves : Disk → List Rule → Change
  saves_raw : Disk → Bytes → Change

disk_of : Bool → Bool → Option ℕ → Bool → Bool → Bool → Disk
disk_of mkdir create write_fails close rename remove = record {
  mkdir = mkdir;
  create = create;
  write_fails = write_fails;
  close = close;
  rename = rename;
  remove = remove;
}

abbrev FilesKept : Bool → Files → Files → Type 0
FilesKept removable fs fs' = (fs'.file ≡ fs.file) × ((fs'.temps ≡ fs.temps) ⊎ (removable ≡ false))

-- The steps at which the write can fail.
atomic_cases :
    (a c : Bool) (w : Option ℕ) (k m r : Bool) (data_ : Bytes) (fs : Files)
    → (write_file_atomic (disk_of a c w k m r) data_ fs).1 ≡ false
    → FilesKept r fs (write_file_atomic (disk_of a c w k m r) data_ fs).0
unfolding write_file_atomic disk_of
atomic_cases a false w k m r data_ fs h = (refl, inl refl)
atomic_cases a true (some n) k m true data_ fs h = (refl, inl refl)
atomic_cases a true (some n) k m false data_ fs h = (refl, inr refl)
atomic_cases a true none false m true data_ fs h = (refl, inl refl)
atomic_cases a true none false m false data_ fs h = (refl, inr refl)
atomic_cases a true none true false true data_ fs h = (refl, inl refl)
atomic_cases a true none true false false data_ fs h = (refl, inr refl)
atomic_cases a true none true true r data_ fs h = absurd (ground arith)

write_file_atomic_keeps :
    (disk : Disk) (data_ : Bytes) (fs : Files)
    → (write_file_atomic disk data_ fs).1 ≡ false
    → FilesKept disk.remove fs (write_file_atomic disk data_ fs).0
unfolding disk_of
write_file_atomic_keeps disk =
    atomic_cases disk.mkdir disk.create disk.write_fails disk.close disk.rename disk.remove

module _ (lib : Library) where
  -- The active rules and the rules file are the same, and so are the temporary files if they can be removed.
  abbrev pub Kept : Bool → Engine lib → Engine lib → Type 0
  Kept removable s s' =
      (s'.active ≡ s.active)
      × (s'.files.file ≡ s.files.file)
      × ((s'.files.temps ≡ s.files.temps) ⊎ (removable ≡ false))

  -- A rules file that compiles has rule ids that are valid, not empty and stand once; its rules
  -- run in file order, as they are written but for the default of the path match; and the set asks
  -- for a body exactly if some enabled rule of that direction has a condition on the body or an action that changes it.
  pub compile_accepts :
      (f : RulesFile) (set : CompiledSet lib.Regex)
      → compile lib f ≡ ok set
      → GoodIds f.rules × (rules_of lib set ≡ map (shown lib) f.rules) × ExactFlags lib f set
  compile_accepts f set e = let s = compile-Step lib f set e in (s.4, s.2, s.1)

  compile-all_ready :
      (f : RulesFile) (set : CompiledSet lib.Regex)
      → compile lib f ≡ ok set
      → all_ready set.rules ≡ true
  compile-all_ready f set e = (compile-Step lib f set e).0

  unfoldable pub change : Yaml → Change → Engine lib → Engine lib × Option EngineError
  change yaml (loads r) s = load lib yaml r s
  change yaml (saves disk rs) s = save_rules lib yaml disk rs s
  change yaml (saves_raw disk text) s = save_raw lib yaml disk text s

  unfoldable pub changed : Yaml → List Change → Engine lib → Engine lib
  changed yaml [] s = s
  changed yaml (c ∷ cs) s = changed yaml cs (change yaml c s).0

  stored_keeps :
      (removable : Bool) (set : CompiledSet lib.Regex) (s : Engine lib) (e : EngineError)
      (w : Files × Bool)
      → (stored lib set s w).1 ≡ some e
      → (w.1 ≡ false → FilesKept removable s.files w.0)
      → Kept removable s (stored lib set s w).0
  stored_keeps removable set s e (fs, true) h k = absurd (ground arith)
  stored_keeps removable set s e (fs, false) h k = let q = k refl in (refl, q.0, q.1)

  saves_keep :
      (f : RulesFile) (disk : Disk) (text : Bytes) (s : Engine lib) (e : EngineError)
      → (save_validated lib f disk text s).1 ≡ some e
      → Kept disk.remove s (save_validated lib f disk text s).0
  unfolding save_validated write_file_atomic
  saves_keep f disk text s e h = elim (Fallible-cases (compile lib f)) [
    | inl (x, g) ↦ rw (g, save_validated) (refl, refl, inl refl)
    | inr (set, g) ↦ elim (Bool-cases disk.mkdir) [
      | inr m ↦ rw (g, m, save_validated) (refl, refl, inl refl)
      | inl m ↦
          rw (g, m, save_validated)
            (stored_keeps disk.remove set s e (write_file_atomic disk text s.files) (ground arith)
              (write_file_atomic_keeps disk text s.files))
    ]
  ]

  -- Whether the removal of a temporary file succeeds.
  abbrev pub removes : Change → Bool
  removes (loads r) = true
  removes (saves disk rs) = disk.remove
  removes (saves_raw disk text) = disk.remove

  -- A load or a save that returns an error, wherever it fails, leaves the active rules and the rules file as they were. It
  -- leaves no temporary file either, unless the removal of that file fails.
  pub refused_keeps :
      (yaml : Yaml) (c : Change) (s : Engine lib) (e : EngineError)
      → (change yaml c s).1 ≡ some e
      → Kept (removes c) s (change yaml c s).0
  unfolding change load save_rules save_raw load_bytes
  refused_keeps yaml (loads not_exist) s e h = absurd (ground arith)
  refused_keeps yaml (loads read_failed) s e h = (refl, refl, inl refl)
  refused_keeps yaml (loads (contents text)) s e h = elim (Option-cases (yaml.unmarshal text)) [
    | inl g ↦ rw (g, load_bytes) (refl, refl, inl refl)
    | inr (f, g) ↦ elim (Fallible-cases (compile lib f)) [
      | inl (x, k) ↦ rw (g, k, load_bytes) (refl, refl, inl refl)
      | inr (set, k) ↦ absurd (ground arith)
    ]
  ]
  refused_keeps yaml (saves disk rs) s e h =
      let f : RulesFile = record { version = 1; rules = rs } in
      elim (Option-cases (yaml.marshal f)) [
        | inl g ↦ rw (g, save_rules) (refl, refl, inl refl)
        | inr (text, g) ↦ rw (g, save_rules) (saves_keep f disk text s e (ground arith))
      ]
  refused_keeps yaml (saves_raw disk text) s e h = elim (Option-cases (yaml.unmarshal text)) [
    | inl g ↦ rw (g, save_raw) (refl, refl, inl refl)
    | inr (f, g) ↦ rw (g, save_raw) (saves_keep f disk text s e (ground arith))
  ]

  -- The active rules are ready.
  abbrev Ready : Engine lib → Type 0
  Ready s = all_ready s.active.rules ≡ true

  saves-Ready :
      (f : RulesFile) (disk : Disk) (text : Bytes) (s : Engine lib)
      → Ready s
      → Ready (save_validated lib f disk text s).0
  unfolding save_validated
  saves-Ready f disk text s r = elim (Fallible-cases (compile lib f)) [
    | inl (x, g) ↦ ground arith
    | inr (set, g) ↦ ground (arith, compile-all_ready f set g)
  ]

  change-Ready : (yaml : Yaml) (c : Change) (s : Engine lib) → Ready s → Ready (change yaml c s).0
  unfolding change load save_rules save_raw load_bytes
  change-Ready yaml (loads not_exist) s r = refl
  change-Ready yaml (loads read_failed) s r = r
  change-Ready yaml (loads (contents text)) s r = elim (Option-cases (yaml.unmarshal text)) [
    | inl g ↦ ground arith
    | inr (f, g) ↦ elim (Fallible-cases (compile lib f)) [
      | inl (x, k) ↦ ground arith
      | inr (set, k) ↦ ground (arith, compile-all_ready f set k)
    ]
  ]
  change-Ready yaml (saves disk rs) s r =
      elim (Option-cases (yaml.marshal (record { version = 1; rules = rs }))) [
        | inl g ↦ ground arith
        | inr (text, g) ↦
            ground (arith, saves-Ready (record { version = 1; rules = rs }) disk text s)
      ]
  change-Ready yaml (saves_raw disk text) s r = elim (Option-cases (yaml.unmarshal text)) [
    | inl g ↦ ground arith
    | inr (f, g) ↦ ground (arith, saves-Ready f disk text s)
  ]

  pub changed-Ready :
      (yaml : Yaml) (cs : List Change) (s : Engine lib) → Ready s → Ready (changed yaml cs s)
  unfolding changed
  changed-Ready yaml [] s r = r
  changed-Ready yaml (c ∷ cs) s r =
      changed-Ready yaml cs (change yaml c s).0 (change-Ready yaml c s r)

  -- After any loads and saves, for every behaviour of the regular expressions, YAML and the file
  -- system, the application of the active rules to a request or a response follows no nil pointer.
  pub rules_return :
      (yaml : Yaml) (file : Option Bytes) (cs : List Change) (req : Request) (resp : Response)
      (available : Bool)
      → (apply_request lib req available (changed yaml cs (new lib file)) ≢ none)
        × (apply_response lib req resp available (changed yaml cs (new lib file)) ≢ none)
  unfolding apply_request apply_response
  rules_return yaml file cs req resp available =
      let s = changed yaml cs (new lib file) in
      let r = changed-Ready yaml cs (new lib file) refl in
      (
        ground (
          arith,
          apply_rules-total lib request_direction s.active.rules
              (target_of lib req req.header req.body 0 available) r,
        ),
        ground (
          arith,
          apply_rules-total lib response_direction s.active.rules
              (target_of lib req resp.header resp.body resp.status_code available) r,
        ),
      )
