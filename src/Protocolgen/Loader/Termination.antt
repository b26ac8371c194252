-- ===== src/Protocolgen/Loader/Termination.antt =====
-- The load of the schemas ends: the fuel of its two recursions is enough.
use planning_poker.Base.{
  length, Option-cases, Bool-cases, ℕ, zero, suc, ◌≤◌, ◌<◌, String, ◌≡◌, refl, false, some, List,
  [], ◌∷◌, str_eq, eq_iff, arith, if◌then◌else◌, inl, inr,
}
use planning_poker.Base.Maps.{StringMap, lookup}
use planning_poker.Protocolgen.Value.{
  Value, null, bool, number, array, object, Entries, get, size_entries,
}
use planning_poker.Protocolgen.Schema.{Schema}
use planning_poker.Protocolgen.Keywords.{parse_info, is_among}
use planning_poker.Protocolgen.Pointers.{pointer_name}
use planning_poker.Protocolgen.Documents.{FileSystem, RawDefinition, resolve_ref}
use planning_poker.Protocolgen.Loader.{
  Parsed, Parse, parse_ref_schema, parse_schema, parse_definition, parse_definitions,
}
use planning_poker.Protocolgen.Loader.Ends.{
  then_with-Ends, wrap_failure-Ends, lift-Ends, parse_children-Ends, Ends, answered, refused,
}

module _ (fs : FileSystem) (root : String) (defs : StringMap RawDefinition) where
  module _ (define : String → Parse Schema)
      (defined : (name : String) (parsed : Parsed) → Ends (define name parsed)) where
    parse_ref_schema-Ends :
        (ref : Value) (file : String) (parsed : Parsed)
        → Ends (parse_ref_schema fs root defs define ref file parsed)
    unfolding parse_ref_schema
    parse_ref_schema-Ends (Value.text ref) file parsed =
        then_with-Ends _ _ (lift-Ends (resolve_ref fs root file ref)) λ (target, fragment).
          elim (Option-cases (lookup (pointer_name fragment) defs)) [
            | inl unknown ↦ rw unknown (refused _)
            | inr (d, known) ↦
                rw known (elim (Bool-cases (str_eq (fs.clean target) (fs.clean d.file))) [
                  | inl same ↦ rw same (
                      then_with-Ends _ _ (defined (pointer_name fragment) parsed)
                        λ (s, after). answered _)
                  | inr other ↦ rw other (refused _)
                ])
          ]
    parse_ref_schema-Ends null file parsed = refused _
    parse_ref_schema-Ends (bool b) file parsed = refused _
    parse_ref_schema-Ends (number n) file parsed = refused _
    parse_ref_schema-Ends (array vs) file parsed = refused _
    parse_ref_schema-Ends (object es) file parsed = refused _

    parse_schema-Ends :
        (m : ℕ) (file : String) (raw : Entries) (parsed : Parsed)
        → size_entries raw < m
        → Ends (parse_schema fs root defs define m file raw parsed)
    unfolding parse_schema
    parse_schema-Ends zero file raw parsed fits = absurd (omega arith)
    parse_schema-Ends (suc m) file raw parsed fits = elim (Option-cases (get "$ref" raw)) [
      | inr (ref, there) ↦ rw (parse_schema, there) (parse_ref_schema-Ends ref file parsed)
      | inl none_there ↦
          rw (parse_schema, none_there)
            (then_with-Ends _ _ (lift-Ends (parse_info raw)) λ i.
              parse_children-Ends (λ es p. parse_schema fs root defs define m file es p) m
                (λ es p small. parse_schema-Ends m file es p small) i.kind i raw parsed
                (omega arith))
    ]

-- The definitions that are not open.
unfoldable pub closed_count : List String → StringMap RawDefinition → ℕ
closed_count parsing [] = 0
closed_count parsing ((name, d) ∷ m) =
    let rest = closed_count parsing m in if is_among name parsing then rest else suc rest

closed_count-le :
    (name : String) (parsing : List String) (m : StringMap RawDefinition)
    → closed_count (name ∷ parsing) m ≤ closed_count parsing m
unfolding closed_count is_among
closed_count-le name parsing [] = ground arith
closed_count-le name parsing ((k, d) ∷ m) = ground (arith, closed_count-le name parsing m)

closed_count-lt :
    (name : String) (parsing : List String) (m : StringMap RawDefinition) (d : RawDefinition)
    → lookup name m ≡ some d
    → is_among name parsing ≡ false
    → closed_count (name ∷ parsing) m < closed_count parsing m
unfolding closed_count is_among lookup
closed_count-lt name parsing [] d there new = absurd (ground arith)
closed_count-lt name parsing ((k, c) ∷ m) d there new = ground (
  arith,
  closed_count-le name parsing m,
  closed_count-lt name parsing m d,
  eq_iff k name,
  eq_iff name k,
)

module _ (fs : FileSystem) (root : String) (defs : StringMap RawDefinition) where
  parse_definition-Ends :
      (n : ℕ) (parsing : List String) (name : String) (parsed : Parsed)
      → closed_count parsing defs < n
      → Ends (parse_definition fs root defs n parsing name parsed)
  unfolding parse_definition
  parse_definition-Ends zero parsing name parsed enough = absurd (omega arith)
  parse_definition-Ends (suc n) parsing name parsed enough =
      elim (Option-cases (lookup name parsed)) [
        | inr (s, memo) ↦ rw (parse_definition, memo) (answered _)
        | inl fresh ↦ elim (Option-cases (lookup name defs)) [
          | inl unknown ↦ rw (parse_definition, fresh, unknown) (refused _)
          | inr (d, known) ↦ elim (Bool-cases (is_among name parsing)) [
            | inl circular ↦ rw (parse_definition, fresh, known, circular) (refused _)
            | inr new ↦
                rw (parse_definition, fresh, known, new)
                  (then_with-Ends _ _
                    (wrap_failure-Ends _ _ (
                      parse_schema-Ends fs root defs
                        (λ other p. parse_definition fs root defs n (name ∷ parsing) other p)
                        (λ other p.
                          parse_definition-Ends n (name ∷ parsing) other p
                            (ground (arith, closed_count-lt name parsing defs d known new)))
                        (suc (size_entries d.raw)) d.file d.raw parsed (omega arith)))
                    λ (s, after). answered _)
          ]
        ]
      ]

  pub parse_definitions-Ends :
      (n : ℕ) (names : List String) (parsed : Parsed)
      → closed_count [] defs < n
      → Ends (parse_definitions fs root defs n names parsed)
  unfolding parse_definitions
  parse_definitions-Ends n [] parsed enough = answered _
  parse_definitions-Ends n (name ∷ names) parsed enough =
      then_with-Ends _ _ (parse_definition-Ends n [] name parsed enough)
        λ (s, after). parse_definitions-Ends n names after enough

pub closed_count-length : (m : StringMap RawDefinition) → closed_count [] m ≡ length m
unfolding closed_count is_among
closed_count-length [] = refl
closed_count-length ((k, d) ∷ m) = ground (arith, closed_count-length m)
