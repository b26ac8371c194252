-- ===== src/Protocolgen/Loader/Whole.antt =====
-- What the whole load leaves.
use planning_poker.Base.{ℕ, suc, String, ◌≡◌, some, List, [], ◌∷◌, All, arith, length}
use planning_poker.Base.Maps.{StringMap, lookup}
use planning_poker.DomainError.{Result, ok, err}
use planning_poker.Protocolgen.Schema.{Schema}
use planning_poker.Protocolgen.Keywords.{is_among}
use planning_poker.Protocolgen.Documents.{FileSystem, RawDefinition, load_definitions}
use planning_poker.Protocolgen.Loader.{
  Loaded, done, failed, out_of_fuel, ◌then_with◌, lift, Parsed, parse_definitions,
}
use planning_poker.Protocolgen.Loader.Resolved.{
  Has, Ordered, nothing_yet, Extends, Grows, grown, fails, stops,
}
use planning_poker.Protocolgen.Loader.Ends.{Ends, answered, refused}
use planning_poker.Protocolgen.Loader.Termination.{parse_definitions-Ends, closed_count-length}
use planning_poker.Protocolgen.Loader.Growth.{IsOf, parse_definition-Grows}
use planning_poker.Protocolgen.Loading.{
  SchemaLoader, definition_names, schema_files, new_schema_loader,
}

-- The names have been parsed, after what was there and in an order that has references first.
abbrev Fills : List String → Parsed → Loaded Parsed → Type 0
Fills names p (done q) = Ordered q × Extends p q × All (Has q) names
Fills names p (failed e) = Unit
Fills names p out_of_fuel = Unit

Fills-cons :
    (name : String) (names : List String) (s : Schema) (p q : Parsed) (r : Loaded Parsed)
    → lookup name q ≡ some s
    → Extends p q
    → Fills names q r
    → Fills (name ∷ names) p r
Fills-cons name names s p q (done t) there more h =
    (h.0, (λ other c e. h.1 other c (more other c e)), ((s, h.1 name s there), h.2))
Fills-cons name names s p q (failed e) there more h = tt
Fills-cons name names s p q out_of_fuel there more h = tt

then_with-Fills :
    (name : String) (names : List String) (p : Parsed) (r : Loaded (Schema × Parsed))
    (f : Schema × Parsed → Loaded Parsed)
    → Grows [] (IsOf name) p r
    → ((s : Schema) (q : Parsed) → Ordered q → Fills names q (f (s, q)))
    → Fills (name ∷ names) p (r then_with f)
then_with-Fills name names p r f (grown s q there o n e) hs =
    Fills-cons name names s p q (f (s, q)) there e (hs s q o)
then_with-Fills name names p r f (fails e) hs = tt
then_with-Fills name names p r f stops hs = tt

module _ (fs : FileSystem) (root : String) (defs : StringMap RawDefinition) where
  parse_definitions-Fills :
      (n : ℕ) (names : List String) (p : Parsed)
      → Ordered p
      → Fills names p (parse_definitions fs root defs n names p)
  unfolding parse_definitions
  parse_definitions-Fills n [] p o = (o, (λ other s there. there), tt)
  parse_definitions-Fills n (name ∷ names) p o =
      then_with-Fills name names p _ _
        (parse_definition-Grows fs root defs n [] name p o
          (unfold is_among in λ other h. absurd (ground arith)))
        λ s q o1. parse_definitions-Fills n names q o1

module _ (fs : FileSystem) (sort_strings : List String → List String) where
  -- Every definition is parsed, and each schema was parsed when its references were.
  abbrev pub Resolves : Loaded SchemaLoader → Type 0
  Resolves (done l) =
      Ordered l.parsed × All (Has l.parsed) (definition_names fs sort_strings l.defs)
  Resolves (failed e) = Unit
  Resolves out_of_fuel = ⊥

  lift-Resolves {ℓ} :
      {A : Type ℓ} (r : Result A) (f : A → Loaded SchemaLoader)
      → ((a : A) → Resolves (f a))
      → Resolves (lift r then_with f)
  unfolding lift
  lift-Resolves (ok a) f hs = hs a
  lift-Resolves (err e) f hs = tt

  filled-Resolves :
      (defs : StringMap RawDefinition) (r : Loaded Parsed)
      → Ends r
      → Fills (definition_names fs sort_strings defs) [] r
      → Resolves (r then_with λ parsed. done (record { defs = defs; parsed = parsed }))
  filled-Resolves defs r (answered q) h = (h.0, h.2)
  filled-Resolves defs r (refused e) h = tt

  -- A load comes to an end, whatever the files hold. If it succeeds it has a schema of every definition,
  -- and a reference in a schema is the name of one that was parsed before it, so no chain of references
  -- comes back.
  pub new_schema_loader-Resolves :
      (root : String) → Resolves (new_schema_loader fs sort_strings root)
  unfolding new_schema_loader
  new_schema_loader-Resolves root = lift-Resolves (schema_files fs sort_strings _) _ λ files.
      lift-Resolves (load_definitions fs root files []) _ λ defs.
        filled-Resolves defs _
          (parse_definitions-Ends fs root defs (suc (length defs))
            (definition_names fs sort_strings defs) [] (ground (arith, closed_count-length defs)))
          (parse_definitions-Fills fs root defs (suc (length defs))
            (definition_names fs sort_strings defs) [] nothing_yet)
