-- ===== src/Protocolgen/Pointers.antt =====
-- References of a schema: `splitRef`, `pointerName` and the walk of a JSON pointer in a document.
use planning_poker.Base.{
  ℕ, zero, suc, String, ◌||◌, Option, none, some, List, [], ◌∷◌, str_eq, if◌then◌else◌,
}
use planning_poker.Base.Int.{pos, negsuc}
use planning_poker.Base.Text.{atoi}
use planning_poker.DomainError.{plain, text, Result, ok, err, ◌>>=◌}
use planning_poker.Protocolgen.Text.{cut, split_at, replace_pair, cut_prefix, last_of}
use planning_poker.Protocolgen.Value.{Value, array, object, Elements, nil, cons, Entries, get}

-- `~1` is a slash and `~0` a tilde.
unfoldable pub unescape : String → String
unescape token = replace_pair 126 48 "~" (replace_pair 126 49 "/" token)

unfoldable pub split_ref : String → String × String
split_ref ref = elim (cut 35 ref) [ none ↦ (ref, "") | some parts ↦ parts ]

unfoldable pub pointer_name : String → String
pointer_name fragment =
    if str_eq fragment "" then "" else unescape (last_of "" (split_at 47 fragment))

unfoldable pub at_index : ℕ → Elements → Option Value
at_index i nil = none
at_index zero (cons v vs) = some v
at_index (suc i) (cons v vs) = at_index i vs

abbrev pub not_found : String → Result Value
not_found token = err (plain "pointer segment %q not found" (text token ∷ []))

unfoldable pub found : String → Option Value → Result Value
found token none = not_found token
found token (some v) = ok v

-- The body of the loop of `pointerValue`, for a token without its escapes.
unfoldable pub pointer_step : String → Value → Result Value
pointer_step token (object es) = found token (get token es)
pointer_step token (array vs) = elim (atoi token) [
  | none ↦ not_found token
  | some (pos i) ↦ found token (at_index i vs)
  | some (negsuc i) ↦ not_found token
]
pointer_step token _ = err (plain "pointer segment %q traverses a scalar" (text token ∷ []))

unfoldable pub pointer_walk : List String → Value → Result Value
pointer_walk [] current = ok current
pointer_walk (token ∷ tokens) current =
    pointer_step (unescape token) current >>= λ next. pointer_walk tokens next

unfoldable pub pointer_value : Entries → String → Result Value
pointer_value document fragment =
    if str_eq fragment "" || str_eq fragment "/"
    then ok (object document)
    else elim (cut_prefix "/" fragment) [
      | none ↦ err (plain "invalid JSON pointer %q" (text fragment ∷ []))
      | some path ↦ pointer_walk (split_at 47 path) (object document)
    ]

unfoldable pub check_pointer : Entries → String → Result (Unit {0})
check_pointer document fragment = pointer_value document fragment >>= λ v. ok tt
