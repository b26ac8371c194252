-- ===== src/Protocolgen/Yaml.antt =====
-- The values that `yaml.Unmarshal` makes, and `normalizeValue`, which turns them into those of JSON. As
-- in Value, the entries of a map stand in the order of the keys.
use planning_poker.Base.{String, [], ◌∷◌}
use planning_poker.DomainError.{plain, text, Result, ok, err, ◌>>=◌}
use planning_poker.Protocolgen.Value.{
  Value, array, object, Elements, nil, cons, Entries, end, entry,
}

-- A key of `map[any]any` is a text, or something else, of which `%v` makes a text.
pub data Key : Type 0 where
  text_key other_key : String → Key

mutual
  pub data Yaml : Type 0 where
    scalar : Value → Yaml
    sequence : YamlElements → Yaml
    string_map : YamlEntries → Yaml
    any_map : KeyedEntries → Yaml

  pub data YamlElements : Type 0 where
    stop : YamlElements
    item : Yaml → YamlElements → YamlElements

  pub data YamlEntries : Type 0 where
    blank : YamlEntries
    pair : String → Yaml → YamlEntries → YamlEntries

  pub data KeyedEntries : Type 0 where
    unkeyed : KeyedEntries
    keyed : Key → Yaml → KeyedEntries → KeyedEntries

unfoldable mutual
  pub normalize_value : Yaml → Result Value
  normalize_value (scalar v) = ok v
  normalize_value (sequence ys) = normalize_slice ys >>= λ vs. ok (array vs)
  normalize_value (string_map ys) = normalize_map ys >>= λ es. ok (object es)
  normalize_value (any_map ys) = normalize_any_map ys >>= λ es. ok (object es)

  pub normalize_slice : YamlElements → Result Elements
  normalize_slice stop = ok nil
  normalize_slice (item y ys) =
      normalize_value y >>= λ v. normalize_slice ys >>= λ vs. ok (cons v vs)

  pub normalize_map : YamlEntries → Result Entries
  normalize_map blank = ok end
  normalize_map (pair key y ys) =
      normalize_value y >>= λ v. normalize_map ys >>= λ es. ok (entry key v es)

  pub normalize_any_map : KeyedEntries → Result Entries
  normalize_any_map unkeyed = ok end
  normalize_any_map (keyed (other_key shown) y ys) =
      err (plain "non-string mapping key %v" (text shown ∷ []))
  normalize_any_map (keyed (text_key key) y ys) =
      normalize_value y >>= λ v. normalize_any_map ys >>= λ es. ok (entry key v es)
