-- ===== src/Protocolgen/Acyclic/Usage.antt =====
-- `scanTypeScriptUsage` ends over the schemas of a load.
use planning_poker.Base.{ℕ, zero, suc, ◌<◌, String, Bool-cases, ◌∷◌, arith, inl, inr}
use planning_poker.Protocolgen.Schema.{
  SchemaKind, ref_kind, object_kind, string_kind, integer_kind, number_kind, boolean_kind,
  array_kind, Info, Schema, schema, Properties, no_more, property, Items, no_items, items, Spec,
}
use planning_poker.Protocolgen.Keywords.{is_among}
use planning_poker.Protocolgen.Loader.{Parsed}
use planning_poker.Protocolgen.Loader.Ends.{Ends, answered, then_with-Ends}
use planning_poker.Protocolgen.Loader.Resolved.{
  Has, Refers, Known, KnownProperties, KnownItems, Ordered, Extends,
}
use planning_poker.Protocolgen.TypeScript.Usage.{
  TypeScriptUsage, Scan, scan_kind, scan_schema, scan_properties, scan_items,
  scan_type_script_usage,
}
use planning_poker.Protocolgen.Acyclic.{rank, Agrees, follow-Ends}

abbrev Scans : (String → Scan) → Parsed → Type 0
Scans refer p = (name : String) (usage : TypeScriptUsage) → Has p name → Ends (refer name usage)

module _ (p : Parsed) (refer : String → Scan) (followed : Scans refer p) where
  scan_kind-Ends :
      (kind : SchemaKind) (i : Info) (a b : Scan) (usage : TypeScriptUsage)
      → Refers p kind i.ref_name
      → ((v : TypeScriptUsage) → Ends (a v))
      → ((v : TypeScriptUsage) → Ends (b v))
      → Ends (scan_kind refer kind i a b usage)
  unfolding scan_kind
  scan_kind-Ends ref_kind i a b usage has ha hb = followed i.ref_name usage has
  scan_kind-Ends object_kind i a b usage has ha hb = ha usage
  scan_kind-Ends string_kind i a b usage has ha hb = answered _
  scan_kind-Ends integer_kind i a b usage has ha hb = answered _
  scan_kind-Ends number_kind i a b usage has ha hb = answered _
  scan_kind-Ends boolean_kind i a b usage has ha hb = answered _
  scan_kind-Ends array_kind i a b usage has ha hb = hb usage

  mutual
    unfolding scan_schema Known

    scan_schema-Ends :
        (s : Schema) (usage : TypeScriptUsage) → Known p s → Ends (scan_schema refer s usage)
    scan_schema-Ends (schema i ps it) usage h =
        scan_kind-Ends i.kind i _ _ usage h.0 (λ v. scan_properties-Ends ps v h.1)
          (λ v. scan_items-Ends it v h.2)

    scan_properties-Ends :
        (ps : Properties) (usage : TypeScriptUsage)
        → KnownProperties p ps
        → Ends (scan_properties refer ps usage)
    scan_properties-Ends no_more usage h = answered usage
    scan_properties-Ends (property name s required ps) usage h =
        then_with-Ends _ _ (scan_schema-Ends s usage h.0) λ after. scan_properties-Ends ps after h.1

    scan_items-Ends :
        (it : Items) (usage : TypeScriptUsage) → KnownItems p it → Ends (scan_items refer it usage)
    scan_items-Ends no_items usage h = answered usage
    scan_items-Ends (items s) usage h = scan_schema-Ends s usage h

module _ (spec : Spec) (all : Parsed) (agrees : Agrees spec all) where
  pub scan_type_script_usage-Ends :
      (n : ℕ) (p : Parsed) (o : Ordered p) (s : Schema) (usage : TypeScriptUsage)
      → Extends p all
      → Known p s
      → rank p o < n
      → Ends (scan_type_script_usage n spec s usage)
  unfolding scan_type_script_usage
  scan_type_script_usage-Ends zero p o s usage more known enough = absurd (omega arith)
  scan_type_script_usage-Ends (suc n) p o s usage more known enough =
      scan_schema-Ends p _
        (λ name seen has. elim (Bool-cases (is_among name seen.visited)) [
          | inl before ↦ rw before (answered seen)
          | inr new ↦
              let visiting : TypeScriptUsage = record seen { visited = name ∷ seen.visited } in
              rw new (
                follow-Ends spec all p o (λ t. scan_type_script_usage n spec t visiting) visiting
                  agrees more
                  (λ q before t later inside less.
                    scan_type_script_usage-Ends n q before t visiting later inside (omega arith))
                  name has)
        ])
        s usage known
