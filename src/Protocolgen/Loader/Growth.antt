-- ===== src/Protocolgen/Loader/Growth.antt =====
-- Every part of the load parses the references of a schema before the schema.
use planning_poker.Protocolgen.Results.{Gives}
use planning_poker.Base.{
  ℕ, zero, suc, String, ◌≡◌, ◌≢◌, refl, subst, false, none, some, Option-cases, Bool-cases, List,
  ◌∷◌, str_eq, eq_iff, arith, inl, inr,
}
use planning_poker.Base.Maps.{StringMap, lookup, insert, lookup-insert}
use planning_poker.Protocolgen.Value.{
  Value, null, bool, number, array, object, Entries, end, entry, get, as_map, size_entries,
}
use planning_poker.Protocolgen.Schema.{
  SchemaKind, ref_kind, object_kind, string_kind, integer_kind, number_kind, boolean_kind,
  array_kind, Info, Schema, schema, no_more, property, no_items, items,
}
use planning_poker.Protocolgen.Keywords.{parse_info, is_among}
use planning_poker.Protocolgen.Keywords.Laws.{IsSound, parse_info-IsSound}
use planning_poker.Protocolgen.Pointers.{pointer_name}
use planning_poker.Protocolgen.Documents.{FileSystem, RawDefinition, resolve_ref}
use planning_poker.Protocolgen.Loader.{
  Loaded, done, ◌then_with◌, Parsed, Parse, required_names, all_declared, parse_object_property,
  parse_property_list, parse_object_properties, parse_array_items, parse_children, parse_ref_schema,
  parse_schema, parse_definition, ref_schema,
}
use planning_poker.Protocolgen.Loader.Resolved.{
  Known, KnownProperties, KnownItems, Ordered, parsed_next, Open, Known-Extends, Grows, grown,
  fails, stops, then_with-Grows, lift-Grows, wrap_failure-Grows, same,
}

module _ (parsing : List String) (parse : Entries → Parse Schema)
    (inner : (es : Entries) (p : Parsed)
      → Ordered p
      → Open parsing p
      → Grows parsing Known p (parse es p)) where
  parse_object_property-Grows :
      (name : String) (value : Value) (p : Parsed)
      → Ordered p
      → Open parsing p
      → Grows parsing Known p (parse_object_property parse name value p)
  unfolding parse_object_property
  parse_object_property-Grows name value p o n = elim (Option-cases (as_map value)) [
    | inl no_object ↦ rw (parse_object_property, no_object) (fails _)
    | inr (es, as_object) ↦
        rw (parse_object_property, as_object)
          (wrap_failure-Grows parsing Known Known p _ (parse es p) (inner es p o n))
  ]

  parse_property_list-Grows :
      (required : List String) (es : Entries) (p : Parsed)
      → Ordered p
      → Open parsing p
      → Grows parsing KnownProperties p (parse_property_list parse required es p)
  unfolding parse_property_list Known
  parse_property_list-Grows required end p o n = grown no_more p tt o n (same p)
  parse_property_list-Grows required (entry name value es) p o n =
      then_with-Grows parsing Known KnownProperties p _ _
        (parse_object_property-Grows name value p o n)
        λ s q known o1 n1 e1.
          then_with-Grows parsing KnownProperties KnownProperties q _ _
            (parse_property_list-Grows required es q o1 n1)
            λ ps t all o2 n2 e2.
              grown (property name s (is_among name required) ps) t
                (Known-Extends q t e2 s known, all) o2 n2 (same t)

  parse_object_properties-Grows :
      (raw : Entries) (p : Parsed)
      → Ordered p
      → Open parsing p
      → Grows parsing KnownProperties p (parse_object_properties parse raw p)
  unfolding parse_object_properties
  parse_object_properties-Grows raw p o n = elim (Option-cases (get "properties" raw)) [
    | inl none_there ↦
        rw (parse_object_properties, none_there) (grown no_more p (unfold Known in tt) o n (same p))
    | inr (value, there) ↦ elim (Option-cases (as_map value)) [
      | inl no_object ↦ rw (parse_object_properties, there, no_object) (fails _)
      | inr (es, as_object) ↦
          rw (parse_object_properties, there, as_object)
            (lift-Grows parsing KnownProperties p (required_names raw) _ λ required is_required.
              lift-Grows parsing KnownProperties p (all_declared required es) _
                λ u is_declared. parse_property_list-Grows required es p o n)
    ]
  ]

  parse_array_items-Grows :
      (raw : Entries) (p : Parsed)
      → Ordered p
      → Open parsing p
      → Grows parsing KnownItems p (parse_array_items parse raw p)
  unfolding parse_array_items
  parse_array_items-Grows raw p o n = elim (Option-cases (get "items" raw)) [
    | inl none_there ↦ rw (parse_array_items, none_there) (fails _)
    | inr (value, there) ↦ elim (Option-cases (as_map value)) [
      | inl no_object ↦ rw (parse_array_items, there, no_object) (fails _)
      | inr (es, as_object) ↦
          rw (parse_array_items, there, as_object)
            (then_with-Grows parsing Known KnownItems p _ _
              (wrap_failure-Grows parsing Known Known p _ (parse es p) (inner es p o n))
              λ s q known o1 n1 e1. grown (items s) q (unfold Known in known) o1 n1 (same q))
    ]
  ]

  parse_children-Grows :
      (kind : SchemaKind) (i : Info) (raw : Entries) (p : Parsed)
      → Ordered p
      → Open parsing p
      → i.kind ≡ kind
      → kind ≢ ref_kind
      → Grows parsing Known p (parse_children parse kind i raw p)
  unfolding parse_children Known
  parse_children-Grows object_kind i raw p o n is_kind plain_kind =
      then_with-Grows parsing KnownProperties Known p _ _ (parse_object_properties-Grows raw p o n)
        λ ps q all o1 n1 e1.
          grown (schema i ps no_items) q (rw is_kind (tt, all, tt)) o1 n1 (same q)
  parse_children-Grows array_kind i raw p o n is_kind plain_kind =
      then_with-Grows parsing KnownItems Known p _ _ (parse_array_items-Grows raw p o n)
        λ it q known o1 n1 e1.
          grown (schema i no_more it) q (rw is_kind (tt, tt, known)) o1 n1 (same q)
  parse_children-Grows ref_kind i raw p o n is_kind plain_kind = absurd (plain_kind refl)
  parse_children-Grows string_kind i raw p o n is_kind plain_kind =
      grown (schema i no_more no_items) p (rw is_kind (tt, tt, tt)) o n (same p)
  parse_children-Grows integer_kind i raw p o n is_kind plain_kind =
      grown (schema i no_more no_items) p (rw is_kind (tt, tt, tt)) o n (same p)
  parse_children-Grows number_kind i raw p o n is_kind plain_kind =
      grown (schema i no_more no_items) p (rw is_kind (tt, tt, tt)) o n (same p)
  parse_children-Grows boolean_kind i raw p o n is_kind plain_kind =
      grown (schema i no_more no_items) p (rw is_kind (tt, tt, tt)) o n (same p)

-- The schema that is given is the parsed one of the name.
abbrev pub IsOf : String → Parsed → Schema → Type 0
IsOf name q s = lookup name q ≡ some s

module _ (fs : FileSystem) (root : String) (defs : StringMap RawDefinition) where
  module _ (parsing : List String) (define : String → Parse Schema)
      (defined : (name : String) (p : Parsed)
        → Ordered p
        → Open parsing p
        → Grows parsing (IsOf name) p (define name p)) where
    parse_ref_schema-Grows :
        (ref : Value) (file : String) (p : Parsed)
        → Ordered p
        → Open parsing p
        → Grows parsing Known p (parse_ref_schema fs root defs define ref file p)
    unfolding parse_ref_schema
    parse_ref_schema-Grows null file p o n = fails _
    parse_ref_schema-Grows (bool b) file p o n = fails _
    parse_ref_schema-Grows (number x) file p o n = fails _
    parse_ref_schema-Grows (array vs) file p o n = fails _
    parse_ref_schema-Grows (object es) file p o n = fails _
    parse_ref_schema-Grows (Value.text ref) file p o n =
        lift-Grows parsing Known p (resolve_ref fs root file ref) _ λ (target, fragment) resolved.
          elim (Option-cases (lookup (pointer_name fragment) defs)) [
            | inl unknown ↦ rw unknown (fails _)
            | inr (d, known) ↦
                rw known (elim (Bool-cases (str_eq (fs.clean target) (fs.clean d.file))) [
                  | inr elsewhere ↦ rw elsewhere (fails _)
                  | inl here ↦ rw here (
                      then_with-Grows parsing (IsOf (pointer_name fragment)) Known p _ _
                        (defined (pointer_name fragment) p o n)
                        λ s q there o1 n1 e1.
                          grown (ref_schema (pointer_name fragment)) q
                            (unfold Known ref_schema in ((s, there), tt, tt)) o1 n1 (same q))
                ])
          ]

    parse_schema-Grows :
        (m : ℕ) (file : String) (raw : Entries) (p : Parsed)
        → Ordered p
        → Open parsing p
        → Grows parsing Known p (parse_schema fs root defs define m file raw p)
    unfolding parse_schema
    parse_schema-Grows zero file raw p o n = stops
    parse_schema-Grows (suc m) file raw p o n = elim (Option-cases (get "$ref" raw)) [
      | inr (ref, there) ↦ rw (parse_schema, there) (parse_ref_schema-Grows ref file p o n)
      | inl none_there ↦
          rw (parse_schema, none_there)
            (lift-Grows parsing Known p (parse_info raw) _ λ i accepted.
              parse_children-Grows parsing (λ es q. parse_schema fs root defs define m file es q)
                (λ es q o1 n1. parse_schema-Grows m file es q o1 n1) i.kind i raw p o n refl
                (subst (Gives IsSound) accepted (parse_info-IsSound raw)).0.0)
    ]

Open-cons :
    (name : String) (parsing : List String) (p : Parsed)
    → Open parsing p
    → lookup name p ≡ none
    → Open (name ∷ parsing) p
unfolding is_among
Open-cons name parsing p n fresh other h = ground (arith, n other, eq_iff name other)

-- The end of a definition: its schema joins the parsed ones.
close_definition :
    (name : String) (parsing : List String) (p : Parsed) (r : Loaded (Schema × Parsed))
    → is_among name parsing ≡ false
    → Grows (name ∷ parsing) Known p r
    → Grows parsing (IsOf name) p (r then_with λ (s, after). done (s, insert name s after))
unfolding is_among
close_definition name parsing p r new (fails e) = fails e
close_definition name parsing p r new stops = stops
close_definition name parsing p r new (grown s q known o n e) =
    let fresh : lookup name q ≡ none = n name (ground (arith, eq_iff name name)) in
    grown s (insert name s q) (ground (arith, lookup-insert name name s q, eq_iff name name))
      (parsed_next name s q o fresh known)
      (λ other h. ground (arith, lookup-insert name other s q, eq_iff name other, n other))
      (λ other t there.
        ground (arith, lookup-insert name other s q, eq_iff name other, e other t there))

module _ (fs : FileSystem) (root : String) (defs : StringMap RawDefinition) where
  pub parse_definition-Grows :
      (n : ℕ) (parsing : List String) (name : String) (p : Parsed)
      → Ordered p
      → Open parsing p
      → Grows parsing (IsOf name) p (parse_definition fs root defs n parsing name p)
  unfolding parse_definition
  parse_definition-Grows zero parsing name p o nw = stops
  parse_definition-Grows (suc n) parsing name p o nw = elim (Option-cases (lookup name p)) [
    | inr (s, memo) ↦ rw (parse_definition, memo) (grown s p memo o nw (same p))
    | inl fresh ↦ elim (Option-cases (lookup name defs)) [
      | inl unknown ↦ rw (parse_definition, fresh, unknown) (fails _)
      | inr (d, known) ↦ elim (Bool-cases (is_among name parsing)) [
        | inl circular ↦ rw (parse_definition, fresh, known, circular) (fails _)
        | inr new ↦
            rw (parse_definition, fresh, known, new)
              (close_definition name parsing p _ new (
                wrap_failure-Grows (name ∷ parsing) Known Known p _ _ (
                  parse_schema-Grows fs root defs (name ∷ parsing)
                    (λ other q. parse_definition fs root defs n (name ∷ parsing) other q)
                    (λ other q o1 n1. parse_definition-Grows n (name ∷ parsing) other q o1 n1)
                    (suc (size_entries d.raw)) d.file d.raw p o
                    (Open-cons name parsing p nw fresh))))
      ]
    ]
  ]
