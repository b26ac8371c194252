-- ===== src/Redis/Samples.antt =====
-- A server that is a map, whose texts are lists of symbols: a room's text is one symbol for the struct
-- without its version, and the member of the version, in unary.
use Prim.Native.Char.{Char, code}
use mathlib.Core.List.{append-nil}
use planning_poker.Base.{
  ℕ, zero, suc, ◌-◌, String, ◌≡◌, refl, ap, sym, ◌∙◌, Bool, true, false, Option, none, some, List,
  [], ◌∷◌, arith, ◌==◌, All,
}
use planning_poker.Base.Maps.{StringMap, lookup, insert, delete, lookup-insert, lookup-delete}
use planning_poker.DomainError.{Error}
use planning_poker.Redis.Serialization.{SerializedRoom, Json, IsFaithful}
use planning_poker.Redis.Script.{
  Symbols, IsSymbols, version_member, spell, matched, strip, leading_digits,
}
use planning_poker.Redis.Client.{Redis, IsStore, Lua, IsLua}

pub data Token : Type 0 where
  character : Char → Token
  one : Token
  struct : SerializedRoom ℕ → Token
  whole : String → Token

abbrev pub ones : ℕ → List Token
ones zero = []
ones (suc n) = one ∷ ones n

abbrev pub is_character : Char → Token → Bool
is_character c (character x) = code c == code x
is_character c one = false
is_character c (struct s) = false
is_character c (whole t) = false

abbrev pub is_one : Token → Bool
is_one (character x) = false
is_one one = true
is_one (struct s) = false
is_one (whole t) = false

abbrev pub token_symbols : Symbols Token
token_symbols = record {
  letter = character;
  is_letter = is_character;
  is_digit = is_one;
  numeral = λ n. one ∷ ones n;
}

ones-AllOnes : (n : ℕ) → All (λ a. is_one a ≡ true) (ones n)
ones-AllOnes zero = tt
ones-AllOnes (suc n) = (refl, ones-AllOnes n)

token_symbols-IsSymbols : IsSymbols token_symbols
token_symbols-IsSymbols = record {
  letters = λ c. ground arith;
  digit = λ n. one;
  digits = ones;
  written = λ n. refl;
  all_digits = λ n. (refl, ones-AllOnes n);
}

-- The number of digits of a text, and the version that the text of a room has.
abbrev pub count_ones : List Token → ℕ
count_ones [] = 0
count_ones (character x ∷ t) = count_ones t
count_ones (one ∷ t) = suc (count_ones t)
count_ones (struct s ∷ t) = count_ones t
count_ones (whole x ∷ t) = count_ones t

abbrev pub version_in : List Token → ℕ
version_in t = count_ones t - 1

abbrev pub read_tokens : List Token → Option (SerializedRoom ℕ)
read_tokens (struct s ∷ t) = some (record s { room_version = version_in t })
read_tokens _ = none

abbrev pub written_tokens : SerializedRoom ℕ → List Token
written_tokens s =
    struct (record s { room_version = 0 }) ∷ version_member token_symbols s.room_version

count_ones-ones : (n : ℕ) → count_ones (ones n) ≡ n
count_ones-ones zero = refl
count_ones-ones (suc n) = ap suc (count_ones-ones n)

version_in-version_member : (n : ℕ) → version_in (version_member token_symbols n) ≡ n
unfolding spell
version_in-version_member n = omega (arith, count_ones-ones n)

abbrev pub token_json : Json ℕ (List Token)
token_json = record { marshal = λ s. some (written_tokens s); unmarshal = read_tokens }

pub token_json-IsFaithful : IsFaithful token_json
token_json-IsFaithful = record {
  reads = λ s d e.
      let same : written_tokens s ≡ d = cc e in
      ap read_tokens (sym same)
      ∙ ap (λ v. some (record s { room_version = v })) (version_in-version_member s.room_version);
}

abbrev pub token_lua : Lua (List Token) Token
token_lua = record {
  version_of = version_in;
  symbols = token_symbols;
  text = λ l. l;
  chars = λ l. l;
}

silent_struct :
    (s : SerializedRoom ℕ) (t : List Token) → matched token_symbols (struct s ∷ t) ≡ none
unfolding matched strip
silent_struct s t = refl

pub token_lua-IsLua : IsLua token_json token_lua
token_lua-IsLua = record {
  symbols = token_symbols-IsSymbols;
  chars_text = λ l. refl;
  version_read = λ s d e.
      let same : written_tokens s ≡ d = cc e in
      ap version_in (sym same) ∙ version_in-version_member s.room_version;
  written = λ s d e. record {
    before = struct (record s { room_version = 0 }) ∷ [];
    after = [];
    text_of = λ n.
        ap (λ l. some (struct (record s { room_version = 0 }) ∷ l))
          (sym (append-nil (version_member token_symbols n)));
    only_here = λ n. (silent_struct (record s { room_version = 0 }) _, tt);
    not_after = tt;
    ends = unfold leading_digits in refl;
  };
}

-- Whether the server answers, and its map.
abbrev pub Server : Type 0
Server = Option Error × StringMap (List Token)

abbrev pub text_of_tokens : List Token → String
text_of_tokens (whole t ∷ []) = t
text_of_tokens _ = ""

abbrev pub map_redis : Redis Server (List Token)
map_redis = record {
  down = λ s. s.0;
  read = λ k s. lookup k s.1;
  write = λ k d s. (s.0, insert k d s.1);
  erase = λ k s. (s.0, delete k s.1);
  of_text = λ t. whole t ∷ [];
  to_text = text_of_tokens;
}

pub map_redis-IsStore : IsStore map_redis
map_redis-IsStore = record {
  read_write = λ k j d s. lookup-insert k j d s.1;
  read_erase = λ k j s. lookup-delete k j s.1;
  text_back = λ t. refl;
}
