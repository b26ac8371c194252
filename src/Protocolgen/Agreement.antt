-- ===== src/Protocolgen/Agreement.antt =====
-- What the printer of Go accepts, that of TypeScript accepts too.
use planning_poker.Protocolgen.Results.{
  Gives, Succeeds, Follows, first-Succeeds, then_ok, then_Succeeds, second-Succeeds, bind-Follows,
  wrapped-Follows,
}
use planning_poker.Base.{
  String, ◌≡◌, refl, subst, Bool, true, some, Option-cases, List, [], ◌∷◌, All, inl, inr,
}
use planning_poker.DomainError.{Result, ok}
use planning_poker.Protocolgen.Schema.{
  SchemaKind, ref_kind, object_kind, string_kind, integer_kind, number_kind, boolean_kind,
  array_kind, Info, Schema, schema, info, properties, Properties, no_more, property, Items,
  no_items, items, Message, Definition, Spec, definition, new_spec,
}
use planning_poker.Protocolgen.Index.{Lists, new_spec-Lists, new_spec-definitions}
use planning_poker.Protocolgen.Names.{Unicode}
use planning_poker.Protocolgen.Go.{
  go_ref_type, go_kind_type, go_type_name, go_array_type, go_property_type, go_fields,
  emit_go_struct, go_definition_of, emit_go_definition, go_definitions,
}
use planning_poker.Protocolgen.TypeScript.{
  ts_kind_type, ts_type_name, ts_array_type, ts_fields, emit_type_script_interface,
  ts_definition_of, emit_type_script_definition, ts_definitions, type_script_body,
}
use planning_poker.Protocolgen.TypeScript.Checks.{
  validatable_kind, ts_ref_is_validatable, ts_ref_check, ts_kind_check, ts_check, ts_item_check,
  ts_checks, emit_type_script_object_guard, ts_guard_of, ts_guards, emit_type_script_guards,
}

module _ (spec : Spec)
    (validatable : (name : String) (d : Definition)
      → definition name spec ≡ some d
      → ts_ref_is_validatable d.body ≡ true) where
  ts_kind_type-Follows :
      (kind : SchemaKind) (i : Info) (a b : Result String)
      → Follows a b
      → Follows (go_kind_type spec kind i a) (ts_kind_type spec kind i b)
  unfolding go_kind_type ts_kind_type
  ts_kind_type-Follows ref_kind i a b h s = s
  ts_kind_type-Follows string_kind i a b h s = tt
  ts_kind_type-Follows integer_kind i a b h s = tt
  ts_kind_type-Follows number_kind i a b h s = tt
  ts_kind_type-Follows boolean_kind i a b h s = tt
  ts_kind_type-Follows array_kind i a b h s = h s
  ts_kind_type-Follows object_kind i a b h s = elim s [ ]

  mutual
    unfolding go_type_name ts_type_name

    ts_type_name-Follows : (s : Schema) → Follows (go_type_name spec s) (ts_type_name spec s)
    ts_type_name-Follows (schema i ps it) =
        ts_kind_type-Follows i.kind i _ _ (ts_array_type-Follows it)

    ts_array_type-Follows : (it : Items) → Follows (go_array_type spec it) (ts_array_type spec it)
    ts_array_type-Follows no_items = λ s. s
    ts_array_type-Follows (items s) =
        bind-Follows _ _ _ _ (ts_type_name-Follows s) λ a c done_so. tt

  ts_ref_check-Follows :
      (name accessor : String) → Follows (go_ref_type spec name) (ts_ref_check spec name accessor)
  unfolding go_ref_type ts_ref_check
  ts_ref_check-Follows name accessor s = elim (Option-cases (definition name spec)) [
    | inl unknown ↦ absurd (rw (Succeeds, go_ref_type, unknown) at s)
    | inr (d, there) ↦ rw (Succeeds, ts_ref_check, there, validatable name d there) tt
  ]

  ts_kind_check-Follows :
      (kind : SchemaKind) (i : Info) (accessor : String) (a b : Result String)
      → Follows a b
      → Follows (go_kind_type spec kind i a) (ts_kind_check spec kind i accessor b)
  unfolding go_kind_type ts_kind_check
  ts_kind_check-Follows ref_kind i accessor a b h s = ts_ref_check-Follows i.ref_name accessor s
  ts_kind_check-Follows string_kind i accessor a b h s = tt
  ts_kind_check-Follows integer_kind i accessor a b h s = tt
  ts_kind_check-Follows number_kind i accessor a b h s = tt
  ts_kind_check-Follows boolean_kind i accessor a b h s = tt
  ts_kind_check-Follows array_kind i accessor a b h s = then_ok b _ (h s)
  ts_kind_check-Follows object_kind i accessor a b h s = elim s [ ]

  mutual
    unfolding go_type_name ts_check

    ts_check-Follows :
        (s : Schema) (accessor : String) → Follows (go_type_name spec s) (ts_check spec s accessor)
    ts_check-Follows (schema i ps it) accessor s =
        then_ok _ _ (ts_kind_check-Follows i.kind i accessor _ _ (ts_item_check-Follows it) s)

    ts_item_check-Follows : (it : Items) → Follows (go_array_type spec it) (ts_item_check spec it)
    ts_item_check-Follows no_items s = s
    ts_item_check-Follows (items s) succeeds =
        ts_check-Follows s "item" (first-Succeeds (go_type_name spec s) _ succeeds)

  property_type-Follows :
      (s : Schema) (required : Bool)
      → Follows (go_property_type spec s required) (go_type_name spec s)
  unfolding go_property_type
  property_type-Follows s required succeeds = first-Succeeds _ _ succeeds

  module _ (u : Unicode) where
    ts_fields-Follows :
        (owner : String) (ps : Properties)
        → Follows (go_fields u spec owner ps) (ts_fields spec owner ps)
    unfolding go_fields ts_fields
    ts_fields-Follows owner no_more = λ s. s
    ts_fields-Follows owner (property name s required ps) =
        bind-Follows _ _ _ _
          (wrapped-Follows _ _ _ _ λ h. ts_type_name-Follows s (property_type-Follows s required h))
          λ a c. bind-Follows _ _ _ _ (ts_fields-Follows owner ps) λ fields others so. tt

    ts_checks-Follows :
        (owner : String) (ps : Properties)
        → Follows (go_fields u spec owner ps) (ts_checks spec owner ps)
    unfolding go_fields ts_checks
    ts_checks-Follows owner no_more = λ s. s
    ts_checks-Follows owner (property name s required ps) =
        bind-Follows _ _ _ _
          (wrapped-Follows _ _ _ _ λ h. ts_check-Follows s _ (property_type-Follows s required h))
          λ a c. bind-Follows _ _ _ _ (ts_checks-Follows owner ps) λ fields others so. tt

    ts_definition_of-Follows :
        (d : Definition) (kind : SchemaKind) (enum : List String)
        → Follows (go_definition_of u spec d kind enum) (ts_definition_of spec d kind enum)
    unfolding go_definition_of ts_definition_of emit_go_struct emit_type_script_interface
    ts_definition_of-Follows d object_kind enum =
        bind-Follows _ _ _ _ (ts_fields-Follows d.name (properties d.body)) λ fields others so. tt
    ts_definition_of-Follows d string_kind (value ∷ values) = λ s. tt
    ts_definition_of-Follows d string_kind [] = λ s. s
    ts_definition_of-Follows d ref_kind enum = λ s. elim s [ ]
    ts_definition_of-Follows d integer_kind enum = λ s. elim s [ ]
    ts_definition_of-Follows d number_kind enum = λ s. elim s [ ]
    ts_definition_of-Follows d boolean_kind enum = λ s. elim s [ ]
    ts_definition_of-Follows d array_kind enum = λ s. elim s [ ]

    ts_guard_of-Follows :
        (d : Definition) (kind : SchemaKind) (enum : List String)
        → Follows (go_definition_of u spec d kind enum) (ts_guard_of spec d kind enum)
    unfolding go_definition_of ts_guard_of emit_go_struct emit_type_script_object_guard
    ts_guard_of-Follows d object_kind enum =
        bind-Follows _ _ _ _ (ts_checks-Follows d.name (properties d.body)) λ fields others so. tt
    ts_guard_of-Follows d string_kind (value ∷ values) = λ s. tt
    ts_guard_of-Follows d string_kind [] = λ s. tt
    ts_guard_of-Follows d ref_kind enum = λ s. tt
    ts_guard_of-Follows d integer_kind enum = λ s. tt
    ts_guard_of-Follows d number_kind enum = λ s. tt
    ts_guard_of-Follows d boolean_kind enum = λ s. tt
    ts_guard_of-Follows d array_kind enum = λ s. tt

    ts_definitions-Follows :
        (ds : List Definition) → Follows (go_definitions u spec ds) (ts_definitions spec ds)
    unfolding go_definitions ts_definitions emit_go_definition emit_type_script_definition
    ts_definitions-Follows [] = λ s. s
    ts_definitions-Follows (d ∷ ds) =
        bind-Follows _ _ _ _ (ts_definition_of-Follows d ((info d.body).kind) ((info d.body).enum))
          λ a c. bind-Follows _ _ _ _ (ts_definitions-Follows ds) λ rest others so. tt

    ts_guards-Follows :
        (ds : List Definition) → Follows (go_definitions u spec ds) (ts_guards spec ds)
    unfolding go_definitions ts_guards emit_go_definition
    ts_guards-Follows [] = λ s. s
    ts_guards-Follows (d ∷ ds) =
        bind-Follows _ _ _ _ (ts_guard_of-Follows d ((info d.body).kind) ((info d.body).enum))
          λ a c. bind-Follows _ _ _ _ (ts_guards-Follows ds) λ rest others so. tt

    type_script_body-Follows :
        Follows (go_definitions u spec spec.definitions) (type_script_body spec)
    unfolding type_script_body emit_type_script_guards
    type_script_body-Follows s =
        then_Succeeds _ _ (ts_definitions-Follows spec.definitions s) λ types.
          then_Succeeds _ _ (then_ok _ _ (ts_guards-Follows spec.definitions s)) λ guards. tt

validatable_kind-true :
    (u : Unicode) (spec : Spec) (d : Definition) (kind : SchemaKind) (enum : List String)
    → Succeeds (go_definition_of u spec d kind enum)
    → validatable_kind kind enum ≡ true
unfolding go_definition_of validatable_kind
validatable_kind-true u spec d object_kind enum s = refl
validatable_kind-true u spec d string_kind (value ∷ values) s = refl
validatable_kind-true u spec d string_kind [] s = elim s [ ]
validatable_kind-true u spec d ref_kind enum s = elim s [ ]
validatable_kind-true u spec d integer_kind enum s = elim s [ ]
validatable_kind-true u spec d number_kind enum s = elim s [ ]
validatable_kind-true u spec d boolean_kind enum s = elim s [ ]
validatable_kind-true u spec d array_kind enum s = elim s [ ]

abbrev IsValidatable : Definition → Type 0
IsValidatable d = ts_ref_is_validatable d.body ≡ true

go_definitions-IsValidatable :
    (u : Unicode) (spec : Spec) (ds : List Definition)
    → Succeeds (go_definitions u spec ds)
    → All IsValidatable ds
unfolding go_definitions emit_go_definition ts_ref_is_validatable
go_definitions-IsValidatable u spec [] s = tt
go_definitions-IsValidatable u spec (d ∷ ds) s =
    let (out, rest) = second-Succeeds (emit_go_definition u spec d) _ s in
    (
      validatable_kind-true u spec d ((info d.body).kind) ((info d.body).enum)
          (first-Succeeds _ _ s),
      go_definitions-IsValidatable u spec ds (first-Succeeds _ _ rest),
    )

-- Of a contract of which the Go types are printed, the TypeScript types and checks are printed too.
pub type_script_body-Succeeds :
    (u : Unicode) (messages : List Message) (ds : List Definition) (spec : Spec)
    → new_spec messages ds ≡ ok spec
    → Succeeds (go_definitions u spec spec.definitions)
    → Succeeds (type_script_body spec)
type_script_body-Succeeds u messages ds spec made printed =
    let whole : spec.definitions ≡ ds =
      subst (Gives (λ t. t.definitions ≡ ds)) made (new_spec-definitions messages ds) in
    let valid : All IsValidatable ds =
      subst (All IsValidatable) whole
        (go_definitions-IsValidatable u spec spec.definitions printed) in
    let listed : Lists (λ name d. IsValidatable d) ds spec =
      subst (Gives (Lists (λ name d. IsValidatable d) ds)) made
        (new_spec-Lists (λ name d. IsValidatable d) messages ds valid) in
    type_script_body-Follows spec (λ name d there. listed.0 name d there) u printed
