-- ===== src/Protocolgen/Index.antt =====
-- `newSpec`: what holds of every definition holds of whatever a name finds.
use planning_poker.Protocolgen.Results.{Gives, bind-Gives, anything}
use planning_poker.Base.{
  String, ◌≡◌, refl, some, Option-cases, List, [], ◌∷◌, All, str_eq, eq_iff, arith, inl, inr, subst,
  Bool-cases,
}
use planning_poker.Base.Maps.{StringMap, lookup, insert, lookup-insert}
use planning_poker.Protocolgen.Schema.{
  Message, Definition, Spec, definition, index_definitions, new_spec,
}

module _ (P : String → Definition → Type 0) where
  abbrev pub Indexed : StringMap Definition → Type 0
  Indexed m = (name : String) (d : Definition) → lookup name m ≡ some d → P name d

  index_definitions-Indexed :
      (ds : List Definition) (m : StringMap Definition)
      → All (λ d. P d.name d) ds
      → Indexed m
      → Gives Indexed (index_definitions ds m)
  unfolding index_definitions
  index_definitions-Indexed [] m h all = all
  index_definitions-Indexed (d ∷ ds) m h all = elim (Option-cases (lookup d.name m)) [
    | inr (old, twice) ↦ rw (Gives, index_definitions, twice) tt
    | inl new ↦
        rw (Gives, index_definitions, new)
          (index_definitions-Indexed ds (insert d.name d m) h.1 λ name e there.
            elim (Bool-cases (str_eq d.name name)) [
              | inr other ↦ all name e (ground (arith, lookup-insert d.name name d m, other, there))
              | inl here ↦
                  subst (λ k. P k e) (ground (arith, eq_iff d.name name, here))
                    (subst (λ x. P d.name x)
                      (ground (arith, lookup-insert d.name name d m, here, there)) h.0)
            ])
  ]

  -- The definitions of the contract are those that it was given.
  abbrev pub Lists : List Definition → Spec → Type 0
  Lists ds spec =
      ((name : String) (d : Definition) → definition name spec ≡ some d → P name d)
      × (spec.definitions ≡ ds)

  pub new_spec-Lists :
      (messages : List Message) (ds : List Definition)
      → All (λ d. P d.name d) ds
      → Gives (Lists ds) (new_spec messages ds)
  unfolding new_spec definition
  new_spec-Lists messages ds h =
      bind-Gives Indexed (Lists ds) (index_definitions ds []) _
        (index_definitions-Indexed ds [] h (unfold lookup in λ name d there. absurd (ground arith)))
        λ m indexed. (indexed, refl)

pub new_spec-definitions :
    (messages : List Message) (ds : List Definition)
    → Gives (λ spec. spec.definitions ≡ ds) (new_spec messages ds)
unfolding new_spec
new_spec-definitions messages ds =
    bind-Gives (λ m. Unit {0}) (λ spec. spec.definitions ≡ ds) (index_definitions ds []) _
      (anything _) λ m u. refl
