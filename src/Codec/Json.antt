-- ===== src/Codec/Json.antt =====
-- JSON values as Python holds them once they are parsed, and Python's operations on such values that the
-- program uses. Numbers are whole and not negative.
pub mod Steps
use Prim.Native.Char.{Char}
use Prim.Native.String
use ranger_ims_server.Prelude.{
  ℕ, String, Bool, true, false, ◌||◌, ◌≡◌, refl, ap, Option, none, some, List, [], ◌∷◌, string_eq,
  ◌==◌, if◌then◌else◌,
}
use ranger_ims_server.Text.{remove_prefix}

infixl 5 ◌>>=◌
mutual
  pub data Json : Type 0 where
    null : Json
    boolean : Bool → Json
    number : ℕ → Json
    text : String → Json
    array : Items → Json
    object : Fields → Json

  pub data Items : Type 0 where
    nil : Items
    cons : Json → Items → Items

  pub data Fields : Type 0 where
    end : Fields
    field : String → Json → Fields → Fields

-- What decoding raises. `group` is the exception that the converter puts the errors of a list's members
-- in.
pub data Error : Type 0 where
  key_error value_error type_error attribute_error assertion_error group : Error

-- A decoder's value, or the exception that leaves it
pub data Result (A : Type 0) : Type 0 where
  err : Error → Result A
  ok : A → Result A

abbrev pub ◌>>=◌ : {A B : Type 0} → Result A → (A → Result B) → Result B
err e >>= next = err e
ok a >>= next = next a

-- `assert condition`
abbrev pub guard : Bool → Error → Result (Unit {0})
guard false error = err error
guard true error = ok tt

infixl 5 ◌>>◌
abbrev pub ◌>>◌ : {A : Type 0} → Result (Unit {0}) → Result A → Result A
check >> rest = check >>= λ _. rest

unfoldable pub items : List Json → Items
items [] = nil
items (v ∷ vs) = cons v (items vs)

unfoldable pub members : Items → List Json
members nil = []
members (cons v vs) = v ∷ members vs

-- `dict.get(key)`
unfoldable pub find : String → Fields → Option Json
find key end = none
find key (field k v fs) = if k == key then some v else find key fs

-- `dict[key] = value`
unfoldable pub set : String → Json → Fields → Fields
set key value end = field key value end
set key value (field k v fs) = if k == key then field k value fs else field k v (set key value fs)

-- `dict.update(other)`
unfoldable pub update : Fields → Fields → Fields
unfolding set
update fs end = fs
update fs (field k v more) = update (set k v fs) more

null_or : Option Json → Json
null_or none = null
null_or (some v) = v

-- `obj.get(key, None)`, which only a dictionary has
unfoldable pub get : String → Json → Result Json
unfolding find null_or
get key (object fs) = ok (null_or (find key fs))
get key other = err attribute_error

required : Option Json → Result Json
required none = err key_error
required (some v) = ok v

-- `obj[key]` for a text as the key
unfoldable pub index : String → Json → Result Json
unfolding find required
index key (object fs) = required (find key fs)
index key other = err type_error

present : Option Json → Bool
present none = false
present (some v) = true

is_text : String → Json → Bool
is_text s (text t) = t == s
is_text s other = false

in_items : String → Items → Bool
unfolding is_text
in_items s nil = false
in_items s (cons v vs) = is_text s v || in_items s vs

starts : Option String → Bool
starts none = false
starts (some rest) = true

-- `part in whole` for two texts
in_text : String → String → Bool
unfolding remove_prefix starts
in_text part String.[] = starts (remove_prefix part "")
in_text part (String.◌∷◌ c s) = starts (remove_prefix part (String.◌∷◌ c s)) || in_text part s

-- `key in obj`
unfoldable pub contains : String → Json → Result Bool
unfolding find present in_items in_text
contains key (object fs) = ok (present (find key fs))
contains key (array vs) = ok (in_items key vs)
contains key (text s) = ok (in_text key s)
contains key other = err type_error

-- `obj[key] = value` for a text as the key
unfoldable pub assign : String → Json → Json → Result Json
assign key value (object fs) = ok (object (set key value fs))
assign key value other = err type_error

keys : Fields → List Json
keys end = []
keys (field k v fs) = text k ∷ keys fs

characters : String → List Json
characters String.[] = []
characters (String.◌∷◌ c s) = text (String.◌∷◌ c String.[]) ∷ characters s

-- `for member in obj`
unfoldable pub iterate : Json → Result (List Json)
unfolding members keys characters
iterate (array vs) = ok (members vs)
iterate (object fs) = ok (keys fs)
iterate (text s) = ok (characters s)
iterate other = err type_error

-- `obj == s`
unfoldable pub equals_text : Json → String → Bool
unfolding is_text
equals_text v s = is_text s v

pub members-items : (vs : List Json) → members (items vs) ≡ vs
unfolding items members
members-items [] = refl
members-items (v ∷ vs) = ap (◌∷◌ v) (members-items vs)
