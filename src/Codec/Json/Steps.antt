-- ===== src/Codec/Json/Steps.antt =====
-- Sequences that give a value, taken apart, and reading a key that has been written.
use ranger_ims_server.Prelude.{
  String, ◌≡◌, refl, some, string_eq, ◌==◌, ◌⊎◌, inl, inr, false, arith,
}
use ranger_ims_server.Codec.Json.{
  Error, Json, object, Fields, end, field, Result, ok, err, find, set, get, assign, ◌>>=◌,
}

pub >>=-eq-ok :
    {A B : Type 0} (m : Result A) (f : A → Result B) (b : B)
    → (m >>= f) ≡ ok b
    → (a : A) × (m ≡ ok a) × (f a ≡ ok b)
>>=-eq-ok (ok a) f b h = (a, refl, h)
>>=-eq-ok (err e) f b h = cc

pub Result-cases :
    {A : Type 0} (m : Result A) → ((a : A) × (m ≡ ok a)) ⊎ ((e : Error) × (m ≡ err e))
Result-cases (ok a) = inl (a, refl)
Result-cases (err e) = inr (e, refl)

pub find-set : (key : String) (v : Json) (fs : Fields) → find key (set key v fs) ≡ some v
unfolding find set
find-set key v end = ground arith
find-set key v (field k w fs) = ground (arith, find-set key v fs)

find-set_ne :
    (key other : String) (v : Json) (fs : Fields)
    → (key == other) ≡ false
    → find key (set other v fs) ≡ find key fs
unfolding find set
find-set_ne key other v end n = ground arith
find-set_ne key other v (field k w fs) n = ground (arith, find-set_ne key other v fs n)

-- What has been written at a key is read at it.
pub get-assign : (key : String) (v w j : Json) → assign key v j ≡ ok w → get key w ≡ ok v
unfolding assign get
get-assign key v w (object fs) h = ground (arith, find-set key v fs)
get-assign key v w Json.null h = cc
get-assign key v w (Json.boolean b) h = cc
get-assign key v w (Json.number n) h = cc
get-assign key v w (Json.text s) h = cc
get-assign key v w (Json.array vs) h = cc

-- Writing at a key leaves the other keys as they are.
pub get-assign_ne :
    (key other : String) (v w j : Json)
    → (key == other) ≡ false
    → assign other v j ≡ ok w
    → get key w ≡ get key j
unfolding assign get
get-assign_ne key other v w (object fs) n h = ground (arith, find-set_ne key other v fs n)
get-assign_ne key other v w Json.null n h = cc
get-assign_ne key other v w (Json.boolean b) n h = cc
get-assign_ne key other v w (Json.number m) n h = cc
get-assign_ne key other v w (Json.text s) n h = cc
get-assign_ne key other v w (Json.array vs) n h = cc
