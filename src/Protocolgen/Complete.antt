-- ===== src/Protocolgen/Complete.antt =====
-- The whole run of the generator: it ends, and it points at no schema that is missing.
use planning_poker.Protocolgen.Acyclic.Usage.{scan_type_script_usage-Ends}
use planning_poker.Protocolgen.Results.{Gives, bind-Gives, weaken-Gives, anything}
use planning_poker.Base.{
  suc, String, ◌≡◌, refl, sym, subst, true, Option, none, some, Option-cases, Bool-cases, List, [],
  ◌∷◌, All, length, str_eq, eq_iff, arith, inl, inr,
}
use planning_poker.Base.Maps.{StringMap, lookup}
use planning_poker.DomainError.{Result, ok, err}
use planning_poker.Protocolgen.Schema.{Schema, Message, Definition, Spec, new_spec}
use planning_poker.Protocolgen.Keywords.{is_among}
use planning_poker.Protocolgen.Documents.{FileSystem, RawDefinition}
use planning_poker.Protocolgen.Loader.{Loaded, done, failed, out_of_fuel, ◌then_with◌, lift, Parsed}
use planning_poker.Protocolgen.Loader.Ends.{
  Ends, answered, refused, then_with-Ends, lift-Ends, wrap_failure-Ends,
}
use planning_poker.Protocolgen.Loader.Resolved.{Has, Known, Known-Extends, Ordered}
use planning_poker.Protocolgen.Loader.Whole.{Resolves, new_schema_loader-Resolves}
use planning_poker.Protocolgen.Loading.{SchemaLoader, keys, definition_names}
use planning_poker.Protocolgen.Spec.{
  build_definition, build_all, build_definitions, load_messages, spec_of,
}
use planning_poker.Protocolgen.Names.{Unicode}
use planning_poker.Protocolgen.Go.{definitions_use_time, spec_uses_time, emit_go_types}
use planning_poker.Protocolgen.TypeScript.{emit_type_script}
use planning_poker.Protocolgen.TypeScript.Usage.{
  TypeScriptUsage, no_usage, scan_definitions, collect_type_script_usage,
}
use planning_poker.Protocolgen.Generate.{Artifact, emit_artifacts, emit_loaded, generate_artifacts}
use planning_poker.Protocolgen.Index.{Lists, new_spec-Lists}
use planning_poker.Protocolgen.Acyclic.{
  Agrees, rank-length, origin, either-Ends, schema_uses_time-Ends,
}

parsed-Known :
    (p : Parsed) (o : Ordered p) (name : String) (s : Schema) → lookup name p ≡ some s → Known p s
parsed-Known p o name s there =
    let (t, q, before, at, inside, earlier, less) = origin p o name (s, there) in
    subst (λ u. Known p u) (ground (arith, at)) (Known-Extends q p earlier t inside)

-- A definition has the schema that was parsed for its name.
abbrev pub BuiltFrom : Parsed → Definition → Type 0
BuiltFrom p d = lookup d.name p ≡ some d.body

abbrev Built : Parsed → Option (List Definition) → Type 0
Built p none = ⊥
Built p (some ds) = All (BuiltFrom p) ds

lookup-keys {ℓ} :
    {V : Type ℓ} (name : String) (m : StringMap V)
    → is_among name (keys m) ≡ true
    → (v : V) × (lookup name m ≡ some v)
unfolding is_among keys lookup
lookup-keys name [] h = absurd (ground arith)
lookup-keys name ((k, v) ∷ m) h = elim (Bool-cases (str_eq k name)) [
  | inl here ↦ rw here (v, refl)
  | inr other ↦ rw other (lookup-keys name m (ground (arith, other)))
]

module _ (fs : FileSystem) (sort_strings : List String → List String) (root : String)
    (loader : SchemaLoader) where
  build_all-Built :
      (names : List String)
      → All (Has loader.parsed) names
      → ((name : String)
          → is_among name names ≡ true
          → (d : RawDefinition) × (lookup name loader.defs ≡ some d))
      → Built loader.parsed (build_all fs sort_strings root loader names)
  unfolding build_all build_definition is_among
  build_all-Built [] h defined = tt
  build_all-Built (name ∷ names) h defined =
      let (raw, is_defined) = defined name (ground (arith, eq_iff name name)) in
      let (s, has) = h.0 in
      let rest : Built loader.parsed (build_all fs sort_strings root loader names) =
        build_all-Built names h.1 λ other among. defined other (ground (arith, among)) in
      elim (Option-cases (build_all fs sort_strings root loader names)) [
        | inl missing ↦ absurd (subst (Built loader.parsed) missing rest)
        | inr (ds, there) ↦
            rw (Built, build_all, build_definition, is_defined, has, there)
              (has, subst (Built loader.parsed) there rest)
      ]

module _ (fs : FileSystem) (sort_strings : List String → List String) (root : String)
    (loader : SchemaLoader) where
  -- The contract that is made of the schemas points at each of them.
  abbrev Complete : Option Spec → Type 0
  Complete none = ⊥
  Complete (some spec) = Agrees spec loader.parsed × All (BuiltFrom loader.parsed) spec.definitions

  new_spec-Complete :
      (messages : List Message) (ds : List Definition)
      → All (BuiltFrom loader.parsed) ds
      → Gives (λ spec. Complete (some spec)) (new_spec messages ds)
  new_spec-Complete messages ds built =
      weaken-Gives (Lists (λ name d. lookup name loader.parsed ≡ some d.body) ds)
        (λ spec. Complete (some spec)) (new_spec messages ds)
        (λ spec listed. (listed.0, subst (All (BuiltFrom loader.parsed)) (sym listed.1) built))
        (new_spec-Lists (λ name d. lookup name loader.parsed ≡ some d.body) messages ds built)

  spec_of-Complete :
      Resolves fs sort_strings (done loader)
      → ((name : String)
          → is_among name (sort_strings (keys loader.defs)) ≡ true
          → is_among name (keys loader.defs) ≡ true)
      → Gives Complete (spec_of fs sort_strings root loader)
  unfolding spec_of build_definitions definition_names
  spec_of-Complete resolves kept =
      bind-Gives (λ ms. Unit {0}) Complete (load_messages fs sort_strings root loader) _
        (anything _)
        λ messages u.
          elim (Option-cases (
            build_all fs sort_strings root loader (definition_names fs sort_strings loader.defs))) [
              | inl missing ↦ absurd (subst (Built loader.parsed) missing built)
              | inr (ds, there) ↦ rw there (
                  bind-Gives (λ spec. Complete (some spec)) Complete (new_spec messages ds) _
                    (new_spec-Complete messages ds (subst (Built loader.parsed) there built))
                    λ spec complete. complete)
            ]
    where
      built :
          Built loader.parsed
            (build_all fs sort_strings root loader (definition_names fs sort_strings loader.defs))
      built =
          build_all-Built fs sort_strings root loader (definition_names fs sort_strings loader.defs)
            resolves.1 λ name among. lookup-keys name loader.defs (kept name among)

module _ (spec : Spec) (p : Parsed) (o : Ordered p) (agrees : Agrees spec p) where
  definitions_use_time-Ends :
      (ds : List Definition)
      → All (BuiltFrom p) ds
      → Ends (definitions_use_time (suc (length p)) spec ds)
  unfolding definitions_use_time
  definitions_use_time-Ends [] h = answered _
  definitions_use_time-Ends (d ∷ ds) h =
      either-Ends _ _
        (schema_uses_time-Ends spec p agrees (suc (length p)) p o d.body (λ name s there. there)
          (parsed-Known p o d.name d.body h.0) (ground (arith, rank-length p o)))
        (definitions_use_time-Ends ds h.1)

  scan_definitions-Ends :
      (ds : List Definition) (usage : TypeScriptUsage)
      → All (BuiltFrom p) ds
      → Ends (scan_definitions (suc (length p)) spec ds usage)
  unfolding scan_definitions
  scan_definitions-Ends [] usage h = answered _
  scan_definitions-Ends (d ∷ ds) usage h =
      then_with-Ends _ _
        (scan_type_script_usage-Ends spec p agrees (suc (length p)) p o d.body usage
          (λ name s there. there) (parsed-Known p o d.name d.body h.0)
          (ground (arith, rank-length p o)))
        λ after. scan_definitions-Ends ds after h.1

  module _ (u : Unicode) (format_source : String → Result String)
      (built : All (BuiltFrom p) spec.definitions) where
    emit_artifacts-Ends : Ends (emit_artifacts u format_source (suc (length p)) spec)
    unfolding emit_artifacts emit_go_types spec_uses_time emit_type_script collect_type_script_usage
    emit_artifacts-Ends =
        then_with-Ends _ _
          (wrap_failure-Ends _ _ (
            then_with-Ends _ _ (lift-Ends _) λ body.
              then_with-Ends _ _ (definitions_use_time-Ends spec.definitions built)
                λ used. lift-Ends _))
          λ types. then_with-Ends _ _ (wrap_failure-Ends _ _ (lift-Ends _)) λ messages.
            then_with-Ends _ _
              (wrap_failure-Ends _ _ (
                then_with-Ends _ _ (scan_definitions-Ends spec.definitions no_usage built)
                  λ usage. then_with-Ends _ _ (lift-Ends _) λ body. answered _))
              λ typescript. answered _

-- The run has come to artifacts or to an error, not to a missing schema.
abbrev pub Settles : Loaded (Option (List Artifact)) → Type 0
Settles (done (some artifacts)) = Unit
Settles (done none) = ⊥
Settles (failed e) = Unit
Settles out_of_fuel = ⊥

ended-Settles :
    (r : Loaded (List Artifact)) → Ends r → Settles (r then_with λ artifacts. done (some artifacts))
ended-Settles r (answered a) = tt
ended-Settles r (refused e) = tt

module _ (u : Unicode) (format_source : String → Result String) (fs : FileSystem)
    (sort_strings : List String → List String) (root : String) where
  loaded-Settles :
      (r : Loaded SchemaLoader) (f : SchemaLoader → Loaded (Option (List Artifact)))
      → Resolves fs sort_strings r
      → ((l : SchemaLoader) → Resolves fs sort_strings (done l) → Settles (f l))
      → Settles (r then_with f)
  loaded-Settles (done l) f resolves hs = hs l resolves
  loaded-Settles (failed e) f resolves hs = tt
  loaded-Settles out_of_fuel f resolves hs = elim resolves [ ]

  emit_loaded-Settles :
      (loader : SchemaLoader) (r : Result (Option Spec))
      → Ordered loader.parsed
      → Gives (Complete fs sort_strings root loader) r
      → Settles
          (lift r then_with λ spec. emit_loaded u format_source fs sort_strings root loader spec)
  unfolding emit_loaded lift
  emit_loaded-Settles loader (err e) o h = tt
  emit_loaded-Settles loader (ok none) o h = elim h [ ]
  emit_loaded-Settles loader (ok (some spec)) o h =
      ended-Settles _ (emit_artifacts-Ends spec loader.parsed o h.0 u format_source h.1)

  -- Whatever the files hold, a run of the generator comes to its artifacts or to an error, and it never
  -- reads a schema that is missing, where `sort.Strings` adds no name.
  pub generate_artifacts-Settles :
      ((name : String) (names : List String)
        → is_among name (sort_strings names) ≡ true
        → is_among name names ≡ true)
      → Settles (generate_artifacts u format_source fs sort_strings root)
  unfolding generate_artifacts
  generate_artifacts-Settles kept =
      loaded-Settles _ _ (new_schema_loader-Resolves fs sort_strings root) λ loader resolves.
        emit_loaded-Settles loader (spec_of fs sort_strings root loader) resolves.0 (
          spec_of-Complete fs sort_strings root loader resolves
            λ name among. kept name (keys loader.defs) among)
