-- ===== src/Codec/Places.antt =====
-- model/json/_address.py and _location.py: addresses and locations. The JSON form of a location holds
-- the address's keys beside its own.
use ranger_ims_server.Prelude.{
  ℕ, String, Option, none, some, ◌≡◌, ◌≢◌, refl, string_eq, if◌then◌else◌,
}
use ranger_ims_server.Model.{Address, text_only, rod_garett, Location}
use ranger_ims_server.Codec.Json.{
  Json, null, number, text, object, Fields, end, field, Result, ok, err, value_error, type_error,
  update, get, index, equals_text, ◌>>=◌,
}
use ranger_ims_server.Codec.Converter.{Converter, IsConverter, at_key, optional, optional-optional}

unfoldable pub text_only_json : Option String → Fields
text_only_json d = field "description" (optional text d) (field "type" (text "text") end)

unfoldable pub rod_garett_json : Option String → Option String → Option ℕ → Option ℕ → Fields
rod_garett_json d concentric hour minute = field "concentric" (optional text concentric) (
    field "radial_hour" (optional number hour) (
      field "radial_minute" (optional number minute)
        (field "description" (optional text d) (field "type" (text "garett") end))))

-- `serializeAddress`
unfoldable pub address_fields : Address → Fields
unfolding text_only_json rod_garett_json
address_fields (text_only d) = text_only_json d
address_fields (rod_garett d concentric hour minute) = rod_garett_json d concentric hour minute

unfoldable pub location_json : Location → Json
location_json l =
    object (update (field "name" (optional text l.name) end) (address_fields l.address))

-- The name is taken as it is. One that is no text and not null, which the code keeps, is refused here.
name_of : Json → Result (Option String)
name_of null = ok none
name_of (text s) = ok (some s)
name_of v = err type_error

module _ (c : Converter) where
  unfoldable pub text_only_of_json : Json → Result Address
  text_only_of_json v = do d ← at_key "description" (c.to_optional c.to_text) v; ok (text_only d)

  unfoldable pub rod_garett_of_json : Json → Result Address
  rod_garett_of_json v = do
    concentric ← at_key "concentric" (c.to_optional c.to_text) v
    hour ← at_key "radial_hour" (c.to_optional c.to_number) v
    minute ← at_key "radial_minute" (c.to_optional c.to_number) v
    d ← at_key "description" (c.to_optional c.to_text) v
    ok (rod_garett d concentric hour minute)

  address_typed : Json → Json → Result Address
  address_typed kind v =
      if equals_text kind "garett"
      then rod_garett_of_json v
      else if equals_text kind "text"
      then text_only_of_json v
      else err value_error

  found_location : Json → Result Location
  unfolding address_typed name_of
  found_location v = do
    kind ← index "type" v
    address ← address_typed kind v
    name ← at_key "name" name_of v
    ok (record { name = name; address = address })

  unfoldable pub location_of_json : Json → Result Location
  unfolding found_location
  location_of_json null = ok (record { name = none; address = text_only none })
  location_of_json v = found_location v

text-ne-null : (s : String) → text s ≢ null
text-ne-null s h = cc

number-ne-null : (n : ℕ) → number n ≢ null
number-ne-null n h = cc

module _ {c : Converter} (k : IsConverter c) where
  pub optional_text : (o : Option String) → c.to_optional c.to_text (optional text o) ≡ ok o
  optional_text o = optional-optional k text c.to_text o (λ s. text-ne-null s) k.text_lem

  pub optional_number : (o : Option ℕ) → c.to_optional c.to_number (optional number o) ≡ ok o
  optional_number o = optional-optional k number c.to_number o (λ n. number-ne-null n) k.number_lem

  name-optional : (o : Option String) → name_of (optional text o) ≡ ok o
  unfolding name_of optional
  name-optional none = refl
  name-optional (some s) = refl

  location_at :
      (name : Option String) (a : Address)
      → location_of_json c (location_json (record { name = name; address = a }))
        ≡ ok (record { name = name; address = a })
  unfolding location_json location_of_json address_fields at_key get index update equals_text
      string_eq text_only_of_json rod_garett_of_json
  location_at name (text_only d) = rw (optional_text d, name-optional name)
  location_at name (rod_garett d concentric hour minute) = rw (
    optional_text concentric,
    optional_number hour,
    optional_number minute,
    optional_text d,
    name-optional name,
  )

  pub location-of-location_json : (l : Location) → location_of_json c (location_json l) ≡ ok l
  unfolding location_json
  location-of-location_json l = location_at l.name l.address
