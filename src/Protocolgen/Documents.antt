-- ===== src/Protocolgen/Documents.antt =====
-- The schema documents: how a file is read, what a reference resolves to, and the definitions that
-- `loadDefinitions` registers. A file is read as often as it is asked for, where the code keeps the
-- document of the first reading.
use planning_poker.Base.{String, Bool, Option, none, some, List, [], ◌∷◌, str_eq, if◌then◌else◌}
use planning_poker.Base.Maps.{StringMap, lookup, insert}
use planning_poker.DomainError.{plain, wrap, text, Result, ok, err, ◌>>=◌}
use planning_poker.Protocolgen.Value.{Value, Entries, end, entry, map_at, as_map}
use planning_poker.Protocolgen.Yaml.{YamlEntries}
use planning_poker.Protocolgen.Pointers.{split_ref, check_pointer}

-- `path/filepath`, `os.ReadDir` (the names, and whether each is a directory), `os.ReadFile`,
-- `json.Unmarshal` and `yaml.Unmarshal` into a `map[string]any`.
pub record FileSystem : Type 0 where
  pub clean : String → String
  pub dir : String → String
  pub join_paths : String → String → String
  pub from_slash : String → String
  pub to_slash : String → String
  pub is_abs : String → Bool
  pub rel : String → String → Option String
  pub read_dir : String → Result (List (String × Bool))
  pub read_file : String → Result String
  pub unmarshal : String → Result Entries
  pub unmarshal_yaml : String → Result YamlEntries

pub record RawDefinition : Type 0 where
  pub name : String
  pub file : String
  pub rel_file : String
  pub raw : Entries

module _ (fs : FileSystem) (root : String) where
  unfoldable pub rel_path : String → String
  rel_path file = elim (fs.rel root file) [
    | none ↦ fs.to_slash file
    | some relative ↦ fs.to_slash relative
  ]

  unfoldable pub load_doc : String → Result Entries
  load_doc path =
      let file = fs.clean path in
      let parsed : String → Result Entries = λ raw. elim (fs.unmarshal raw) [
        | err e ↦ err (wrap "parse schema %s: %w" (text (rel_path file) ∷ []) e)
        | ok document ↦ ok document
      ] in
      elim (fs.read_file file) [
        | err e ↦ err (wrap "read schema %s: %w" (text (rel_path file) ∷ []) e)
        | ok raw ↦ parsed raw
      ]

  unfoldable pub target_file : String → String → String
  target_file base_file file_part =
      if str_eq file_part ""
      then fs.clean base_file
      else if fs.is_abs file_part
      then fs.clean file_part
      else fs.clean (fs.join_paths (fs.dir base_file) (fs.from_slash file_part))

  -- The file and the fragment.
  unfoldable pub resolve_ref : String → String → Result (String × String)
  resolve_ref base_file ref =
      let (file_part, fragment) = split_ref ref in
      let target = target_file base_file file_part in
      let checked : Entries → Result (String × String) = λ document.
        elim (check_pointer document fragment) [
          | err e ↦
              err (wrap "resolve $ref %q in %s: %w" (text ref ∷ text (rel_path target) ∷ []) e)
          | ok u ↦ ok (target, fragment)
        ] in
      elim (load_doc target) [
        | err e ↦ err (wrap "resolve $ref %q: %w" (text ref ∷ []) e)
        | ok document ↦ checked document
      ]

  unfoldable pub register_definition :
      String → String → Value → StringMap RawDefinition → Result (StringMap RawDefinition)
  register_definition file name value defs =
      let added : Entries → Result (StringMap RawDefinition) = λ raw. elim (lookup name defs) [
        | some existing ↦ err (
            plain "duplicate $defs %q in %s and %s"
              (text name ∷ text existing.rel_file ∷ text (rel_path file) ∷ []))
        | none ↦ ok (
            insert name
              (record { name = name; file = fs.clean file; rel_file = rel_path file; raw = raw })
              defs)
      ] in
      elim (as_map value) [
        | none ↦ err (plain "%s: $defs.%s is not an object" (text (rel_path file) ∷ text name ∷ []))
        | some raw ↦ added raw
      ]

  -- The loop of `loadDefinitionsFrom`.
  unfoldable pub register_all :
      String → Entries → StringMap RawDefinition → Result (StringMap RawDefinition)
  register_all file end defs = ok defs
  register_all file (entry name value es) defs =
      register_definition file name value defs >>= λ more. register_all file es more

  unfoldable pub load_definitions_from :
      String → StringMap RawDefinition → Result (StringMap RawDefinition)
  load_definitions_from file defs = load_doc file >>= λ document. elim (map_at "$defs" document) [
    | none ↦ err (plain "%s: missing $defs object" (text (rel_path file) ∷ []))
    | some es ↦ register_all file es defs
  ]

  unfoldable pub load_definitions :
      List String → StringMap RawDefinition → Result (StringMap RawDefinition)
  load_definitions [] defs = ok defs
  load_definitions (file ∷ files) defs =
      load_definitions_from file defs >>= λ more. load_definitions files more
