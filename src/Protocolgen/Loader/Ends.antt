-- ===== src/Protocolgen/Loader/Ends.antt =====
-- The parts of a parse that end when the parse of what is inside does.
use planning_poker.Base.{Option-cases, ℕ, suc, ◌≤◌, ◌<◌, String, ◌≡◌, some, List, arith, inl, inr}
use planning_poker.DomainError.{Error, Result, ok, err}
use planning_poker.Protocolgen.Value.{
  Value, null, bool, number, array, object, Entries, end, entry, get, as_map, size, size_entries,
  size-get,
}
use planning_poker.Protocolgen.Schema.{
  Schema, Info, SchemaKind, ref_kind, object_kind, string_kind, integer_kind, number_kind,
  boolean_kind, array_kind,
}
use planning_poker.Protocolgen.Loader.{
  Loaded, done, failed, out_of_fuel, ◌then_with◌, wrap_failure, lift, Parsed, Parse, required_names,
  all_declared, parse_object_property, parse_property_list, parse_object_properties,
  parse_array_items, parse_children,
}

-- The run has come to an answer or to an error.
pub data Ends {ℓ} {A : Type ℓ} : Loaded A → Type ℓ where
  answered : (a : A) → Ends (done a)
  refused : (e : Error) → Ends (failed e)

module _ {ℓ} {A : Type ℓ} where
  pub then_with-Ends {κ} :
      {B : Type κ} (r : Loaded A) (f : A → Loaded B)
      → Ends r
      → ((a : A) → Ends (f a))
      → Ends (r then_with f)
  then_with-Ends (done a) f (answered b) hs = hs a
  then_with-Ends out_of_fuel f h hs = elim h [ ]
  then_with-Ends (failed e) f (refused g) hs = refused e

  pub wrap_failure-Ends :
      (around : Error → Error) (r : Loaded A) → Ends r → Ends (wrap_failure around r)
  unfolding wrap_failure
  wrap_failure-Ends around (done a) (answered b) = answered a
  wrap_failure-Ends around out_of_fuel h = elim h [ ]
  wrap_failure-Ends around (failed e) (refused f) = refused (around e)

  pub lift-Ends : (r : Result A) → Ends (lift r)
  unfolding lift
  lift-Ends (ok a) = answered a
  lift-Ends (err e) = refused e

pub as_map-size : (v : Value) (es : Entries) → as_map v ≡ some es → size v ≡ suc (size_entries es)
unfolding as_map size
as_map-size (object os) es e = ground arith
as_map-size null es e = absurd (ground arith)
as_map-size (bool b) es e = absurd (ground arith)
as_map-size (number n) es e = absurd (ground arith)
as_map-size (Value.text t) es e = absurd (ground arith)
as_map-size (array vs) es e = absurd (ground arith)

-- A parser that ends on whatever is smaller than a bound.
module _ (parse : Entries → Parse Schema) (bound : ℕ)
    (below : (es : Entries) (parsed : Parsed)
      → size_entries es < bound
      → Ends (parse es parsed)) where
  pub parse_object_property-Ends :
      (name : String) (value : Value) (parsed : Parsed)
      → size value ≤ bound
      → Ends (parse_object_property parse name value parsed)
  unfolding parse_object_property
  parse_object_property-Ends name value parsed fits = elim (Option-cases (as_map value)) [
    | inl none_there ↦ rw (parse_object_property, none_there) (refused _)
    | inr (es, there) ↦
        rw (parse_object_property, there)
          (wrap_failure-Ends _ (parse es parsed)
            (below es parsed (ground (arith, as_map-size value es there))))
  ]

  pub parse_property_list-Ends :
      (required : List String) (es : Entries) (parsed : Parsed)
      → size_entries es ≤ bound
      → Ends (parse_property_list parse required es parsed)
  unfolding parse_property_list size
  parse_property_list-Ends required end parsed fits = answered _
  parse_property_list-Ends required (entry name value es) parsed fits =
      then_with-Ends _ _ (parse_object_property-Ends name value parsed (omega arith)) λ (s, after).
        then_with-Ends _ _ (parse_property_list-Ends required es after (omega arith))
          λ (ps, last). answered _

  pub parse_object_properties-Ends :
      (raw : Entries) (parsed : Parsed)
      → size_entries raw ≤ bound
      → Ends (parse_object_properties parse raw parsed)
  unfolding parse_object_properties
  parse_object_properties-Ends raw parsed fits = elim (Option-cases (get "properties" raw)) [
    | inl none_there ↦ rw (parse_object_properties, none_there) (answered _)
    | inr (value, there) ↦ elim (Option-cases (as_map value)) [
      | inl no_object ↦ rw (parse_object_properties, there, no_object) (refused _)
      | inr (es, as_object) ↦
          rw (parse_object_properties, there, as_object)
            (then_with-Ends _ _ (lift-Ends (required_names raw)) λ required.
              then_with-Ends _ _ (lift-Ends (all_declared required es)) λ u.
                parse_property_list-Ends required es parsed (
                  ground
                    (arith, as_map-size value es as_object, size-get "properties" raw value there)))
    ]
  ]

  pub parse_array_items-Ends :
      (raw : Entries) (parsed : Parsed)
      → size_entries raw ≤ bound
      → Ends (parse_array_items parse raw parsed)
  unfolding parse_array_items
  parse_array_items-Ends raw parsed fits = elim (Option-cases (get "items" raw)) [
    | inl none_there ↦ rw (parse_array_items, none_there) (refused _)
    | inr (value, there) ↦ elim (Option-cases (as_map value)) [
      | inl no_object ↦ rw (parse_array_items, there, no_object) (refused _)
      | inr (es, as_object) ↦
          rw (parse_array_items, there, as_object)
            (then_with-Ends _ _
              (wrap_failure-Ends _ (parse es parsed) (
                below es parsed (
                  ground
                    (arith, as_map-size value es as_object, size-get "items" raw value there))))
              λ (s, after). answered _)
    ]
  ]

  pub parse_children-Ends :
      (kind : SchemaKind) (i : Info) (raw : Entries) (parsed : Parsed)
      → size_entries raw ≤ bound
      → Ends (parse_children parse kind i raw parsed)
  unfolding parse_children
  parse_children-Ends object_kind i raw parsed fits =
      then_with-Ends _ _ (parse_object_properties-Ends raw parsed fits) λ (ps, after). answered _
  parse_children-Ends array_kind i raw parsed fits =
      then_with-Ends _ _ (parse_array_items-Ends raw parsed fits) λ (it, after). answered _
  parse_children-Ends ref_kind i raw parsed fits = answered _
  parse_children-Ends string_kind i raw parsed fits = answered _
  parse_children-Ends integer_kind i raw parsed fits = answered _
  parse_children-Ends number_kind i raw parsed fits = answered _
  parse_children-Ends boolean_kind i raw parsed fits = answered _
