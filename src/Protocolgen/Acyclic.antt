-- ===== src/Protocolgen/Acyclic.antt =====
-- The printers follow the references of a schema without a bound of their own. Over the schemas of a
-- load, which have no circle, they come to an end.
pub mod Usage
use planning_poker.Base.{
  ℕ, zero, suc, ◌<◌, String, ◌≡◌, refl, subst, Bool, true, false, none, some, Option-cases,
  Bool-cases, [], ◌∷◌, length, str_eq, eq_iff, arith, if◌then◌else◌, inl, inr,
}
use planning_poker.Base.Maps.{StringMap, lookup, insert, lookup-insert}
use planning_poker.Protocolgen.Schema.{
  SchemaKind, ref_kind, object_kind, string_kind, integer_kind, number_kind, boolean_kind,
  array_kind, Info, Schema, schema, Properties, no_more, property, Items, no_items, items,
  Definition, Spec, definition,
}
use planning_poker.Protocolgen.Keywords.{is_among}
use planning_poker.Protocolgen.Loader.{Loaded, done, Parsed}
use planning_poker.Protocolgen.Loader.Ends.{Ends, answered, then_with-Ends}
use planning_poker.Protocolgen.Loader.Resolved.{
  Has, Refers, Known, KnownProperties, KnownItems, Ordered, nothing_yet, parsed_next, Extends,
}
use planning_poker.Protocolgen.TypeScript.Usage.{
  TypeScriptUsage, Scan, scan_kind, scan_schema, scan_properties, scan_items,
  scan_type_script_usage,
}
use planning_poker.Protocolgen.Go.{
  either, time_of_kind, time_in, time_in_properties, time_in_items, schema_uses_time,
}

-- The number of schemas that were parsed.
unfoldable pub rank : (p : Parsed) → Ordered p → ℕ
rank p nothing_yet = 0
rank p (parsed_next name s q o fresh known) = suc (rank q o)

length-insert_fresh {ℓ} :
    {V : Type ℓ} (name : String) (v : V) (m : StringMap V)
    → lookup name m ≡ none
    → length (insert name v m) ≡ suc (length m)
unfolding insert lookup
length-insert_fresh name v [] fresh = refl
length-insert_fresh name v ((k, w) ∷ m) fresh = ground (arith, length-insert_fresh name v m)

pub rank-length : (p : Parsed) (o : Ordered p) → rank p o ≡ length p
unfolding rank
rank-length p nothing_yet = refl
rank-length p (parsed_next name s q o fresh known) =
    ground (arith, length-insert_fresh name s q fresh, rank-length q o)

insert-Extends :
    (name : String) (s : Schema) (p : Parsed) → lookup name p ≡ none → Extends p (insert name s p)
insert-Extends name s p fresh other t there =
    ground (arith, lookup-insert name other s p, eq_iff name other)

-- What was there before a schema was parsed.
abbrev pub Origin : (p : Parsed) → Ordered p → String → Type 0
Origin p o name =
    (s : Schema) × (q : Parsed) × (before : Ordered q) × (lookup name p ≡ some s)
    × Known q s
    × Extends q p
    × (rank q before < rank p o)

pub origin : (p : Parsed) (o : Ordered p) (name : String) → Has p name → Origin p o name
unfolding rank
origin p nothing_yet name (s, there) = absurd (unfold lookup in ground arith)
origin p (parsed_next new s q o fresh known) name (t, there) = elim (Bool-cases (str_eq new name)) [
  | inl here ↦ (
    s,
    q,
    o,
    ground (arith, lookup-insert new name s q),
    known,
    insert-Extends new s q fresh,
    omega arith,
  )
  | inr other ↦
      let (u, r, before, at, inside, more, less) =
        origin q o name (t, ground (arith, lookup-insert new name s q)) in
      (
        u,
        r,
        before,
        insert-Extends new s q fresh name u at,
        inside,
        (λ k v e. insert-Extends new s q fresh k v (more k v e)),
        omega arith,
      )
]

pub either-Ends :
    (first second : Loaded Bool) → Ends first → Ends second → Ends (either first second)
unfolding either
either-Ends first second h k = then_with-Ends first _ h λ b. if_ends b second k
  where
    if_ends :
        (b : Bool) (second : Loaded Bool) → Ends second → Ends (if b then done true else second)
    if_ends true second k = answered true
    if_ends false second k = k

module _ (p : Parsed) (refer : String → Loaded Bool)
    (followed : (name : String) → Has p name → Ends (refer name)) where
  time_of_kind-Ends :
      (kind : SchemaKind) (i : Info) (a b : Loaded Bool)
      → Refers p kind i.ref_name
      → Ends a
      → Ends b
      → Ends (time_of_kind refer kind i a b)
  unfolding time_of_kind
  time_of_kind-Ends ref_kind i a b has ha hb = followed i.ref_name has
  time_of_kind-Ends object_kind i a b has ha hb = ha
  time_of_kind-Ends string_kind i a b has ha hb = answered _
  time_of_kind-Ends integer_kind i a b has ha hb = answered _
  time_of_kind-Ends number_kind i a b has ha hb = answered _
  time_of_kind-Ends boolean_kind i a b has ha hb = answered _
  time_of_kind-Ends array_kind i a b has ha hb = hb

  mutual
    unfolding time_in Known

    time_in-Ends : (s : Schema) → Known p s → Ends (time_in refer s)
    time_in-Ends (schema i ps it) h =
        time_of_kind-Ends i.kind i _ _ h.0 (time_in_properties-Ends ps h.1)
          (time_in_items-Ends it h.2)

    time_in_properties-Ends :
        (ps : Properties) → KnownProperties p ps → Ends (time_in_properties refer ps)
    time_in_properties-Ends no_more h = answered false
    time_in_properties-Ends (property name s required ps) h =
        either-Ends _ _ (time_in-Ends s h.0) (time_in_properties-Ends ps h.1)

    time_in_items-Ends : (it : Items) → KnownItems p it → Ends (time_in_items refer it)
    time_in_items-Ends no_items h = answered false
    time_in_items-Ends (items s) h = time_in-Ends s h

-- The definitions of a contract are the schemas that were parsed.
abbrev pub Agrees : Spec → Parsed → Type 0
Agrees spec p =
    (name : String) (d : Definition) → definition name spec ≡ some d → lookup name p ≡ some d.body

-- What follows a reference ends when it does on what was parsed before.
pub follow-Ends {ℓ} :
    {A : Type ℓ} (spec : Spec) (all p : Parsed) (o : Ordered p) (run : Schema → Loaded A)
    (missing : A)
    → Agrees spec all
    → Extends p all
    → ((q : Parsed) (before : Ordered q) (s : Schema)
        → Extends q all
        → Known q s
        → rank q before < rank p o
        → Ends (run s))
    → (name : String) → Has p name
    → Ends (elim (definition name spec) [ none ↦ done missing | some d ↦ run d.body ])
follow-Ends spec all p o run missing agrees more below name has =
    elim (Option-cases (definition name spec)) [
      | inl unknown ↦ rw unknown (answered missing)
      | inr (d, there) ↦
          let (t, q, before, at, inside, earlier, less) = origin p o name has in
          rw there (
            subst (λ b. Ends (run b)) (ground (arith, more name t at, agrees name d there))
              (below q before t (λ k v e. more k v (earlier k v e)) inside less))
    ]

module _ (spec : Spec) (all : Parsed) (agrees : Agrees spec all) where
  pub schema_uses_time-Ends :
      (n : ℕ) (p : Parsed) (o : Ordered p) (s : Schema)
      → Extends p all
      → Known p s
      → rank p o < n
      → Ends (schema_uses_time n spec s)
  unfolding schema_uses_time
  schema_uses_time-Ends zero p o s more known enough = absurd (omega arith)
  schema_uses_time-Ends (suc n) p o s more known enough =
      time_in-Ends p _
        (follow-Ends spec all p o (λ t. schema_uses_time n spec t) false agrees more
          λ q before t later inside less.
            schema_uses_time-Ends n q before t later inside (omega arith))
        s known
