-- ===== src/Tests/Converter.antt =====
-- A converter that does what is documented, on the values whose conversion the program relies on.
use mathlib.Core.Path.{subst}
use ranger_ims_server.Prelude.{
  ℕ, String, Bool, Option, none, some, List, [], ◌∷◌, ◌≡◌, ◌≢◌, refl, sym, arith,
}
use ranger_ims_server.Codec.Json.{
  Json, null, boolean, number, text, array, object, Result, ok, err, type_error, group,
}
use ranger_ims_server.Codec.Converter.{Converter, IsConverter, Converts}
use ranger_ims_server.Tests.Clock.{iso_format, parse_iso, parse-format}

abbrev pub only_text : Json → Result String
only_text (text s) = ok s
only_text v = err type_error

abbrev pub only_number : Json → Result ℕ
only_number (number n) = ok n
only_number v = err type_error

abbrev pub only_boolean : Json → Result Bool
only_boolean (boolean b) = ok b
only_boolean v = err type_error

abbrev pub filled : {A : Type 0} → Result A → Result (Option A)
filled (ok a) = ok (some a)
filled (err e) = err e

abbrev pub null_or_value : {A : Type 0} → (Json → Result A) → Json → Result (Option A)
null_or_value f null = ok none
null_or_value f v = filled (f v)

abbrev pub joined : {A : Type 0} → Result A → Result (List A) → Result (List A)
joined (ok a) (ok rest) = ok (a ∷ rest)
joined (ok a) (err e) = err group
joined (err e) rest = err group

abbrev pub each : {A : Type 0} → (Json → Result A) → List Json → Result (List A)
each f [] = ok []
each f (v ∷ vs) = joined (f v) (each f vs)

abbrev pub converter : Converter
converter = record {
  to_text = only_text;
  to_number = only_number;
  to_boolean = only_boolean;
  to_optional = null_or_value;
  to_list = each;
  iso_format = iso_format;
  parse_iso = parse_iso;
}

null_or_value-some :
    {A : Type 0} (f : Json → Result A) (v : Json) (a : A)
    → v ≢ null
    → f v ≡ ok a
    → null_or_value f v ≡ ok (some a)
null_or_value-some f null a n h = absurd (n refl)
null_or_value-some f (boolean b) a n h = rw h
null_or_value-some f (number m) a n h = rw h
null_or_value-some f (text s) a n h = rw h
null_or_value-some f (array vs) a n h = rw h
null_or_value-some f (object fs) a n h = rw h

each_lem :
    {A : Type 0} (f : Json → Result A) (vs : List Json) (xs : List A)
    → Converts f vs xs
    → each f vs ≡ ok xs
each_lem f [] [] h = refl
each_lem f [] (x ∷ xs) h = elim h [ ]
each_lem f (v ∷ vs) [] h = elim h [ ]
each_lem f (v ∷ vs) (x ∷ xs) h = rw (h.0, each_lem f vs xs h.1)

joined-inv :
    {A : Type 0} (m : Result A) (n : Result (List A)) (xs : List A)
    → joined m n ≡ ok xs
    → (x : A) × (rest : List A) × (m ≡ ok x) × (n ≡ ok rest) × (xs ≡ x ∷ rest)
joined-inv (ok a) (ok rest) xs h = (a, rest, refl, refl, ground arith)
joined-inv (ok a) (err e) xs h = cc
joined-inv (err e) n xs h = cc

each_inv :
    {A : Type 0} (f : Json → Result A) (vs : List Json) (xs : List A)
    → each f vs ≡ ok xs
    → Converts f vs xs
each_inv f [] [] h = tt
each_inv f [] (x ∷ xs) h = ground arith
each_inv f (v ∷ vs) xs h =
    let (x, rest, one, others, same) = joined-inv (f v) (each f vs) xs h in
    subst (Converts f (v ∷ vs)) (sym same) (one, each_inv f vs rest others)

pub converts : IsConverter converter
converts = record {
  text_lem = λ s. refl;
  number_lem = λ n. refl;
  boolean_lem = λ b. refl;
  optional-null = λ f. refl;
  optional-some = null_or_value-some;
  list_lem = each_lem;
  list_inv = each_inv;
  time_lem = parse-format;
}
