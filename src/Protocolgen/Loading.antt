-- ===== src/Protocolgen/Loading.antt =====
-- `newSchemaLoader`: the schema files of the directory, their definitions, and the schemas.
use planning_poker.Base.{suc, String, Bool, not, ◌||◌, List, [], ◌∷◌, if◌then◌else◌, length}
use planning_poker.Base.Maps.{StringMap}
use planning_poker.DomainError.{plain, wrap, text, Result, ok, err}
use planning_poker.Protocolgen.Text.{has_suffix}
use planning_poker.Protocolgen.Documents.{FileSystem, RawDefinition, load_definitions}
use planning_poker.Protocolgen.Loader.{Loaded, done, ◌then_with◌, lift, Parsed, parse_definitions}

pub record SchemaLoader : Type 0 where
  pub defs : StringMap RawDefinition
  pub parsed : Parsed

-- The body of the loop of `schemaFiles`.
unfoldable pub kept_files : FileSystem → String → List (String × Bool) → List String
kept_files fs directory [] = []
kept_files fs directory ((name, is_dir) ∷ found) =
    let rest = kept_files fs directory found in
    if is_dir || not (has_suffix ".schema.json" name)
    then rest
    else fs.join_paths directory name ∷ rest

unfoldable pub some_files : List String → Result (List String)
some_files [] = err (plain "no *.schema.json files in %s" (text "protocol/schemas" ∷ []))
some_files (file ∷ files) = ok (file ∷ files)

unfoldable pub keys {ℓ} : {V : Type ℓ} → StringMap V → List String
keys [] = []
keys ((name, v) ∷ m) = name ∷ keys m

-- `sort_strings` is `sort.Strings`.
module _ (fs : FileSystem) (sort_strings : List String → List String) where
  unfoldable pub schema_files : String → Result (List String)
  schema_files directory = elim (fs.read_dir directory) [
    | err e ↦ err (wrap "read schema directory: %w" [] e)
    | ok found ↦ some_files (sort_strings (kept_files fs directory found))
  ]

  unfoldable pub definition_names : StringMap RawDefinition → List String
  definition_names defs = sort_strings (keys defs)

  -- At most all the definitions are open at once.
  unfoldable pub new_schema_loader : String → Loaded SchemaLoader
  new_schema_loader root =
      lift (schema_files (fs.join_paths root (fs.from_slash "protocol/schemas"))) then_with λ files.
      lift (load_definitions fs root files []) then_with λ defs.
      parse_definitions fs root defs (suc (length defs)) (definition_names defs) []
      then_with λ parsed. done (record { defs = defs; parsed = parsed })
