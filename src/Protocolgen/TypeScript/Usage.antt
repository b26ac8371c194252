-- ===== src/Protocolgen/TypeScript/Usage.antt =====
-- `collectTypeScriptUsage`: which helpers the checks import.
use planning_poker.Base.{
  ℕ, zero, suc, String, Bool, true, false, none, some, List, [], ◌∷◌, str_eq, if◌then◌else◌,
}
use planning_poker.Protocolgen.Schema.{
  SchemaKind, ref_kind, object_kind, string_kind, integer_kind, array_kind, Info, Schema, schema,
  Properties, no_more, property, Items, no_items, items, Definition, Spec, definition,
}
use planning_poker.Protocolgen.Keywords.{is_among}
use planning_poker.Protocolgen.Loader.{Loaded, done, out_of_fuel, ◌then_with◌}

-- `typeScriptUsage`, with the references that were visited.
pub record TypeScriptUsage : Type 0 where
  pub integer : Bool
  pub timestamp : Bool
  pub uuid : Bool
  pub visited : List String

unfoldable pub no_usage : TypeScriptUsage
no_usage = record { integer = false; timestamp = false; uuid = false; visited = [] }

unfoldable pub format_usage : String → TypeScriptUsage → TypeScriptUsage
format_usage format usage =
    if str_eq format "date-time"
    then record usage { timestamp = true }
    else if str_eq format "uuid"
    then record usage { uuid = true }
    else usage

abbrev pub Scan : Type 0
Scan = TypeScriptUsage → Loaded TypeScriptUsage

-- The switch over the kind, with the scans of what a reference means and of the inside.
unfoldable pub scan_kind : (String → Scan) → SchemaKind → Info → Scan → Scan → Scan
scan_kind refer object_kind i of_properties of_items usage = of_properties usage
scan_kind refer string_kind i of_properties of_items usage = done (format_usage i.format usage)
scan_kind refer integer_kind i of_properties of_items usage = done (record usage { integer = true })
scan_kind refer array_kind i of_properties of_items usage = of_items usage
scan_kind refer ref_kind i of_properties of_items usage = refer i.ref_name usage
scan_kind refer _ i of_properties of_items usage = done usage

unfoldable mutual
  pub scan_schema : (String → Scan) → Schema → Scan
  scan_schema refer (schema i ps it) usage =
      scan_kind refer i.kind i (λ v. scan_properties refer ps v) (λ v. scan_items refer it v) usage

  pub scan_properties : (String → Scan) → Properties → Scan
  scan_properties refer no_more usage = done usage
  scan_properties refer (property name s required ps) usage =
      scan_schema refer s usage then_with λ after. scan_properties refer ps after

  pub scan_items : (String → Scan) → Items → Scan
  scan_items refer no_items usage = done usage
  scan_items refer (items s) usage = scan_schema refer s usage

-- The fuel is for the references that are followed one behind the other.
unfoldable pub scan_type_script_usage : ℕ → Spec → Schema → Scan
scan_type_script_usage zero spec s usage = out_of_fuel
scan_type_script_usage (suc n) spec s usage =
    let follow : String → Scan = λ name visiting. elim (definition name spec) [
      | none ↦ done visiting
      | some d ↦ scan_type_script_usage n spec d.body visiting
    ] in
    let refer : String → Scan = λ name seen.
      if is_among name seen.visited
      then done seen
      else follow name (record seen { visited = name ∷ seen.visited }) in
    scan_schema refer s usage

unfoldable pub scan_definitions : ℕ → Spec → List Definition → Scan
scan_definitions n spec [] usage = done usage
scan_definitions n spec (d ∷ ds) usage =
    scan_type_script_usage n spec d.body usage then_with λ after. scan_definitions n spec ds after

unfoldable pub collect_type_script_usage : ℕ → Spec → Loaded TypeScriptUsage
collect_type_script_usage n spec = scan_definitions n spec spec.definitions no_usage
