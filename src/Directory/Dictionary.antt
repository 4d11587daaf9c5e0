-- ===== src/Directory/Dictionary.antt =====
-- Python's dictionaries with texts as keys: pairs in the order in which the keys came in.
use ranger_ims_server.Prelude.{
  String, ◌≡◌, refl, Bool, true, false, Option, none, some, List, [], ◌∷◌, string_eq, ◌==◌,
  if◌then◌else◌, arith,
}

module _ {ℓ} {A : Type ℓ} where
  -- `d.get(key)`
  unfoldable pub look : String → List (String × A) → Option A
  look key [] = none
  look key ((k, v) ∷ d) = if k == key then some v else look key d

  -- `d[key] = value`
  unfoldable pub put : String → A → List (String × A) → List (String × A)
  put key value [] = (key, value) ∷ []
  put key value ((k, v) ∷ d) =
      let rest = put key value d in if k == key then (k, value) ∷ d else (k, v) ∷ rest

  -- `del d[key]`, for a key that is there
  unfoldable pub erase : String → List (String × A) → List (String × A)
  erase key [] = []
  erase key ((k, v) ∷ d) = let rest = erase key d in if k == key then rest else (k, v) ∷ rest

  is_some : Option A → Bool
  is_some none = false
  is_some (some a) = true

  -- `key in d`
  unfoldable pub has : String → List (String × A) → Bool
  unfolding is_some
  has key d = is_some (look key d)

  -- `d.values()`
  unfoldable pub values : List (String × A) → List A
  values [] = []
  values ((k, v) ∷ d) = v ∷ values d

  pub look-put :
      (key other : String) (v : A) (d : List (String × A))
      → look other (put key v d) ≡ (if key == other then some v else look other d)
  unfolding look put
  look-put key other v [] = refl
  look-put key other v ((k, w) ∷ d) = ground (arith, look-put key other v d)

  pub look-erase :
      (key other : String) (d : List (String × A))
      → look other (erase key d) ≡ (if key == other then none else look other d)
  unfolding look erase
  look-erase key other [] = ground arith
  look-erase key other ((k, w) ∷ d) = ground (arith, look-erase key other d)
