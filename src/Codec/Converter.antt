-- ===== src/Codec/Converter.antt =====
-- model/json/_json.py: the library that converts values by their types, and the texts of times, as a
-- parameter, and `deserialize`'s steps over it.
use ranger_ims_server.Prelude.{
  ℕ, String, Bool, Option, none, some, List, [], ◌∷◌, map, ◌≡◌, ◌≢◌, All,
}
use ranger_ims_server.Model.Time.{DateTime}
use ranger_ims_server.Codec.Json.{
  Json, null, boolean, number, text, array, items, members-items, Result, ok, iterate, get, ◌>>=◌,
}

-- `converter.structure` at the types that the library knows by itself, and the texts of times. What it
-- makes of a list or a set depends on the members that iterating gives.
pub record Converter : Type 1 where
  pub to_text : Json → Result String
  pub to_number : Json → Result ℕ
  pub to_boolean : Json → Result Bool
  pub to_optional : {A : Type 0} → (Json → Result A) → Json → Result (Option A)
  pub to_list : {A : Type 0} → (Json → Result A) → List Json → Result (List A)
  pub iso_format : DateTime → String
  pub parse_iso : Json → Result DateTime

-- The members of a list are converted one by one, and all have to be.
abbrev pub Converts : {A : Type 0} → (Json → Result A) → List Json → List A → Type 0
Converts f [] [] = Unit {0}
Converts f (v ∷ vs) (a ∷ xs) = (f v ≡ ok a) × Converts f vs xs
Converts f _ _ = ⊥

-- What the code relies on
pub record IsConverter (c : Converter) : Type 1 where
  pub text_lem : (s : String) → c.to_text (text s) ≡ ok s
  pub number_lem : (n : ℕ) → c.to_number (number n) ≡ ok n
  pub boolean_lem : (b : Bool) → c.to_boolean (boolean b) ≡ ok b
  pub optional-null : {A : Type 0} (f : Json → Result A) → c.to_optional f null ≡ ok none
  pub optional-some :
      {A : Type 0} (f : Json → Result A) (v : Json) (a : A)
      → v ≢ null
      → f v ≡ ok a
      → c.to_optional f v ≡ ok (some a)
  pub list_lem :
      {A : Type 0} (f : Json → Result A) (vs : List Json) (xs : List A)
      → Converts f vs xs
      → c.to_list f vs ≡ ok xs
  pub list_inv :
      {A : Type 0} (f : Json → Result A) (vs : List Json) (xs : List A)
      → c.to_list f vs ≡ ok xs
      → Converts f vs xs
  pub time_lem : (t : DateTime) → c.parse_iso (text (c.iso_format t)) ≡ ok t

-- `deserializeKey`: the value at the key, or null, by its type
unfoldable pub at_key : {A : Type 0} → String → (Json → Result A) → Json → Result A
at_key key f obj = get key obj >>= f

module _ (c : Converter) where
  -- `jsonDeserialize(json, list[…])`
  unfoldable pub list_of : {A : Type 0} → (Json → Result A) → Json → Result (List A)
  list_of f v = do vs ← iterate v; c.to_list f vs

-- `serializeIterable`
unfoldable pub array_of : {A : Type 0} → (A → Json) → List A → Json
unfolding items
array_of g xs = array (items (map g xs))

-- A value that may be `None`
unfoldable pub optional : {A : Type 0} → (A → Json) → Option A → Json
optional g none = null
optional g (some a) = g a

module _ {c : Converter} (k : IsConverter c) {A : Type 0} (g : A → Json) (f : Json → Result A) where
  Converts-map : (xs : List A) → All (λ a. f (g a) ≡ ok a) xs → Converts f (map g xs) xs
  Converts-map [] h = tt
  Converts-map (a ∷ xs) h = (h.0, Converts-map xs h.1)

  -- A list comes back if its members do.
  pub list-array_of :
      (xs : List A) → All (λ a. f (g a) ≡ ok a) xs → list_of c f (array_of g xs) ≡ ok xs
  unfolding list_of array_of iterate
  list-array_of xs h =
      rw (members-items (map g xs)) (k.list_lem f (map g xs) xs (Converts-map xs h))

  pub optional-optional :
      (o : Option A)
      → ((a : A) → g a ≢ null)
      → ((a : A) → f (g a) ≡ ok a)
      → c.to_optional f (optional g o) ≡ ok o
  unfolding optional
  optional-optional none n h = k.optional-null f
  optional-optional (some a) n h = k.optional-some f (g a) a (n a) (h a)
