-- ===== src/Protocolgen/Loader/Resolved.antt =====
-- What a load leaves: every reference of a parsed schema is a schema that was parsed before it, so the
-- references make no circle.
use planning_poker.Base.{String, ◌≡◌, refl, true, none, some, List, []}
use planning_poker.Base.Maps.{lookup, insert}
use planning_poker.DomainError.{Error, Result, ok, err}
use planning_poker.Protocolgen.Schema.{
  SchemaKind, ref_kind, object_kind, string_kind, integer_kind, number_kind, boolean_kind,
  array_kind, Schema, schema, Properties, no_more, property, Items, no_items, items,
}
use planning_poker.Protocolgen.Keywords.{is_among}
use planning_poker.Protocolgen.Loader.{
  Loaded, done, failed, out_of_fuel, ◌then_with◌, wrap_failure, lift, Parsed,
}

-- The name has been parsed.
abbrev pub Has : Parsed → String → Type 0
Has p name = (s : Schema) × (lookup name p ≡ some s)

abbrev pub Refers : Parsed → SchemaKind → String → Type 0
Refers p ref_kind name = Has p name
Refers p _ name = Unit

-- The references of a schema have been parsed.
unfoldable mutual
  pub Known : Parsed → Schema → Type 0
  Known p (schema i ps it) = Refers p i.kind i.ref_name × KnownProperties p ps × KnownItems p it

  pub KnownProperties : Parsed → Properties → Type 0
  KnownProperties p no_more = Unit
  KnownProperties p (property name s required ps) = Known p s × KnownProperties p ps

  pub KnownItems : Parsed → Items → Type 0
  KnownItems p no_items = Unit
  KnownItems p (items s) = Known p s

-- The schemas were parsed one after the other, each with its references before it.
pub data Ordered : Parsed → Type 0 where
  nothing_yet : Ordered []
  parsed_next :
      (name : String) (s : Schema) (p : Parsed)
      → Ordered p
      → lookup name p ≡ none
      → Known p s
      → Ordered (insert name s p)

abbrev pub Extends : Parsed → Parsed → Type 0
Extends p q = (name : String) (s : Schema) → lookup name p ≡ some s → lookup name q ≡ some s

-- No open definition has been parsed.
abbrev pub Open : List String → Parsed → Type 0
Open parsing q = (name : String) → is_among name parsing ≡ true → lookup name q ≡ none

module _ (p q : Parsed) (more : Extends p q) where
  Refers-Extends : (kind : SchemaKind) (name : String) → Refers p kind name → Refers q kind name
  Refers-Extends ref_kind name (s, there) = (s, more name s there)
  Refers-Extends object_kind name h = tt
  Refers-Extends string_kind name h = tt
  Refers-Extends integer_kind name h = tt
  Refers-Extends number_kind name h = tt
  Refers-Extends boolean_kind name h = tt
  Refers-Extends array_kind name h = tt

  mutual
    unfolding Known

    pub Known-Extends : (s : Schema) → Known p s → Known q s
    Known-Extends (schema i ps it) h = (
      Refers-Extends i.kind i.ref_name h.0,
      KnownProperties-Extends ps h.1,
      KnownItems-Extends it h.2,
    )

    KnownProperties-Extends : (ps : Properties) → KnownProperties p ps → KnownProperties q ps
    KnownProperties-Extends no_more h = tt
    KnownProperties-Extends (property name s required ps) h =
        (Known-Extends s h.0, KnownProperties-Extends ps h.1)

    KnownItems-Extends : (it : Items) → KnownItems p it → KnownItems q it
    KnownItems-Extends no_items h = tt
    KnownItems-Extends (items s) h = Known-Extends s h

-- What a step of the load promises, where `Holds` speaks of what it gives and of what is parsed then.
pub data Grows {ℓ} {A : Type ℓ} (parsing : List String) (Holds : Parsed → A → Type 0) (p : Parsed)
    : Loaded (A × Parsed) → Type ℓ where
  grown :
      (a : A) (q : Parsed)
      → Holds q a
      → Ordered q
      → Open parsing q
      → Extends p q
      → Grows parsing Holds p (done (a, q))
  fails : (e : Error) → Grows parsing Holds p (failed e)
  stops : Grows parsing Holds p out_of_fuel

module _ {ℓ κ} {A : Type ℓ} {B : Type κ} (parsing : List String) (Holds : Parsed → A → Type 0)
    (Then : Parsed → B → Type 0) (p : Parsed) where
  pub later-Grows :
      (q : Parsed) (r : Loaded (B × Parsed))
      → Extends p q
      → Grows parsing Then q r
      → Grows parsing Then p r
  later-Grows q r more (grown b t h o n e) =
      grown b t h o n λ name s there. e name s (more name s there)
  later-Grows q r more (fails e) = fails e
  later-Grows q r more stops = stops

  pub then_with-Grows :
      (r : Loaded (A × Parsed)) (f : A × Parsed → Loaded (B × Parsed))
      → Grows parsing Holds p r
      → ((a : A) (q : Parsed)
          → Holds q a
          → Ordered q
          → Open parsing q
          → Extends p q
          → Grows parsing Then q (f (a, q)))
      → Grows parsing Then p (r then_with f)
  then_with-Grows r f (grown a q h o n e) hs = later-Grows q (f (a, q)) e (hs a q h o n e)
  then_with-Grows r f (fails e) hs = fails e
  then_with-Grows r f stops hs = stops

  pub wrap_failure-Grows :
      (around : Error → Error) (r : Loaded (A × Parsed))
      → Grows parsing Holds p r
      → Grows parsing Holds p (wrap_failure around r)
  unfolding wrap_failure
  wrap_failure-Grows around r (grown a q h o n e) = grown a q h o n e
  wrap_failure-Grows around r (fails e) = fails (around e)
  wrap_failure-Grows around r stops = stops

module _ {ℓ κ} {A : Type ℓ} {B : Type κ} (parsing : List String) (Then : Parsed → B → Type 0)
    (p : Parsed) where
  pub lift-Grows :
      (r : Result A) (f : A → Loaded (B × Parsed))
      → ((a : A) → r ≡ ok a → Grows parsing Then p (f a))
      → Grows parsing Then p ((lift r) then_with f)
  unfolding lift
  lift-Grows (ok a) f hs = hs a refl
  lift-Grows (err e) f hs = fails e

pub same : (p : Parsed) → Extends p p
same p name s there = there
