-- ===== src/Redis/Client.antt =====
-- The Redis client and the JSON functions of the Lua scripts, as the hub relies on them. A call fails
-- when the server cannot be reached, and changes nothing then.
use Prim.Native.String.{◌++◌ as concat}
use planning_poker.Redis.Script.{
  Symbols, IsSymbols, version_member, Silent, leading_digits, gsub, gsub-version_member,
}
use planning_poker.Base.{
  List, [], ◌++◌, sym, ap, ◌∙◌, ℕ, String, ◌≡◌, Option, none, some, str_eq, if◌then◌else◌,
}
use planning_poker.DomainError.{Error}
use planning_poker.Redis.Serialization.{SerializedRoom, Json}

-- `D` are the texts that Redis keeps: `down` is the error of the next call, `read`, `write` and `erase`
-- are GET, SET with a time to live and DEL.
pub record Redis (S D : Type 0) : Type 0 where
  pub down : S → Option Error
  pub read : String → S → Option D
  pub write : String → D → S → S
  pub erase : String → S → S
  pub of_text : String → D
  pub to_text : D → String

pub record IsStore {S D : Type 0} (rd : Redis S D) : Type 0 where
  pub read_write :
      (k j : String) (d : D) (s : S)
      → rd.read j (rd.write k d s) ≡ (if str_eq k j then some d else rd.read j s)
  pub read_erase :
      (k j : String) (s : S) → rd.read j (rd.erase k s) ≡ (if str_eq k j then none else rd.read j s)
  pub text_back : (t : String) → rd.to_text (rd.of_text t) ≡ t

-- What the scripts read and write of a text: `cjson.decode(stored).roomVersion`, and its symbols.
pub record Lua (D A : Type 0) : Type 0 where
  pub version_of : D → ℕ
  pub symbols : Symbols A
  pub text : List A → D
  pub chars : D → List A

-- The text of a struct, whatever its version: the member of the version, which no digit follows, and
-- what is before it and after it. No other member has that name, and JSON escapes the quotes inside a
-- string, so the pattern of the script matches nowhere else.
pub record IsWritten {F D A : Type 0} (js : Json F D) (lua : Lua D A) (s : SerializedRoom F)
    : Type 0 where
  pub before : List A
  pub after : List A
  pub text_of :
      (n : ℕ)
      → js.marshal (record s { room_version = n })
        ≡ some (lua.text (before ++ (version_member lua.symbols n ++ after)))
  pub only_here : (n : ℕ) → Silent lua.symbols before (version_member lua.symbols n ++ after)
  pub not_after : Silent lua.symbols after []
  pub ends : leading_digits lua.symbols after ≡ 0

pub record IsLua {F D A : Type 0} (js : Json F D) (lua : Lua D A) : Type 0 where
  pub symbols : IsSymbols lua.symbols
  pub chars_text : (l : List A) → lua.chars (lua.text l) ≡ l
  pub version_read :
      (s : SerializedRoom F) (d : D) → js.marshal s ≡ some d → lua.version_of d ≡ s.room_version
  pub written : (s : SerializedRoom F) (d : D) → js.marshal s ≡ some d → IsWritten js lua s

-- `string.gsub(ARGV[1], '"roomVersion":%d+', '"roomVersion":' .. next)`
unfoldable pub put_version : {D A : Type 0} → Lua D A → ℕ → D → D
unfolding gsub
put_version lua n d = lua.text (gsub lua.symbols (version_member lua.symbols n) 0 (lua.chars d))

module _ {F D A : Type 0} (js : Json F D) (lua : Lua D A) (lu : IsLua js lua) where
  -- The text that the script writes is that of the struct with the next version.
  pub put_version_lem :
      (n : ℕ) (s : SerializedRoom F) (d : D)
      → js.marshal s ≡ some d
      → js.marshal (record s { room_version = n }) ≡ some (put_version lua n d)
  unfolding put_version
  put_version_lem n s d e =
      let w = lu.written s d e in
      let m = s.room_version in
      let same : some d ≡ some (lua.text (w.before ++ (version_member lua.symbols m ++ w.after))) =
        sym e ∙ w.text_of m in
      let text : d ≡ lua.text (w.before ++ (version_member lua.symbols m ++ w.after)) = cc same in
      w.text_of n
      ∙ ap (λ l. some (lua.text l))
          (sym (
              gsub-version_member lua.symbols lu.symbols m n w.before w.after (w.only_here m)
                w.not_after w.ends)
            ∙ ap (λ l. gsub lua.symbols (version_member lua.symbols n) 0 l)
                (sym (ap lua.chars text ∙ lu.chars_text _)))

unfoldable pub room_key : String → String
room_key id = concat "planning-poker:room:" id

unfoldable pub client_entry : String → String
client_entry id = concat "planning-poker:client:" id
