-- ===== src/Api/New/Typed.antt =====
-- The entries of a new incident or a new report are by the user, not automatic, and of the time of the
-- request.
use mathlib.Core.Path.{subst}
use ranger_ims_server.Prelude.{
  String, ◌≡◌, ◌≢◌, refl, ap, ◌∙◌, false, List, [], ◌∷◌, All, string_eq, arith,
}
use ranger_ims_server.Codec.Json.{
  Json, null, boolean, number, text, array, object, end, field, Result, ok, err, get, assign,
  iterate, index, items, members, members-items,
}
use ranger_ims_server.Codec.Json.Steps.{get-assign, get-assign_ne}
use ranger_ims_server.Api.Server.{Outcome, value, reply, raised}
use ranger_ims_server.Api.New.Body.{
  attempt, decoded, refuse_keys, stamp, stamp_all, stamp_in, stamp_entries, ◌>>=◌,
}

pub >>=-eq-value :
    {A B : Type 0} (m : Outcome A) (f : A → Outcome B) (b : B)
    → (m >>= f) ≡ value b
    → (a : A) × (m ≡ value a) × (f a ≡ value b)
>>=-eq-value (value a) f b h = (a, refl, h)
>>=-eq-value (reply r) f b h = cc
>>=-eq-value (raised x) f b h = cc

pub attempt-inv : {A : Type 0} (m : Result A) (a : A) → attempt m ≡ value a → m ≡ ok a
unfolding attempt
attempt-inv (ok b) a h = ground arith
attempt-inv (err e) a h = cc

pub decoded-inv : {A : Type 0} (m : Result A) (a : A) → decoded m ≡ value a → m ≡ ok a
unfolding decoded
decoded-inv (ok b) a h = ground arith
decoded-inv (err e) a h = ground arith

pub value-injective : {A : Type 0} (a b : A) → ◌≡◌ {A = Outcome A} (value a) (value b) → a ≡ b
value-injective a b h = ground arith

module _ (author now : String) where
  -- An entry that has been stamped
  abbrev pub IsSigned : Json → Type 0
  IsSigned w =
      (get "created" w ≡ ok (text now))
      × (get "author" w ≡ ok (text author))
      × (get "system_entry" w ≡ ok (boolean false))

  stamp-IsSigned : (v w : Json) → stamp author now v ≡ value w → IsSigned w
  unfolding stamp string_eq
  stamp-IsSigned v w h =
      let (_, _, h₁) = >>=-eq-value (refuse_keys _ v) _ w h in
      let (timed, t, h₂) = >>=-eq-value (attempt (assign "created" (text now) v)) _ w h₁ in
      let (signed, s, h₃) = >>=-eq-value (attempt (assign "author" (text author) timed)) _ w h₂ in
      let t' = attempt-inv _ timed t in
      let s' = attempt-inv _ signed s in
      let last = attempt-inv _ w h₃ in
      (
        get-assign_ne "created" "system_entry" (boolean false) w signed refl last
            ∙ get-assign_ne "created" "author" (text author) signed timed refl s'
            ∙ get-assign "created" (text now) timed v t',
        get-assign_ne "author" "system_entry" (boolean false) w signed refl last
            ∙ get-assign "author" (text author) signed timed s',
        get-assign "system_entry" (boolean false) w signed last,
      )

  stamp_all-IsSigned : (vs ws : List Json) → stamp_all author now vs ≡ value ws → All IsSigned ws
  unfolding stamp_all
  stamp_all-IsSigned [] ws h = subst (All IsSigned) (value-injective [] ws h) tt
  stamp_all-IsSigned (v ∷ vs) ws h =
      let (w, one, h₁) = >>=-eq-value (stamp author now v) _ ws h in
      let (rest, others, last) = >>=-eq-value (stamp_all author now vs) _ ws h₁ in
      subst (All IsSigned) (value-injective (w ∷ rest) ws last)
        (stamp-IsSigned v w one, stamp_all-IsSigned vs rest others)

  stamp-text : (s : String) (w : Json) → stamp author now (text s) ≢ value w
  unfolding stamp assign attempt
  stamp-text s w h =
      let (_, _, h₁) = >>=-eq-value (refuse_keys _ (text s)) _ w h in ground (arith, h₁)

  -- A list of entries all of which have been stamped
  abbrev pub AreSigned : Json → Type 0
  AreSigned j = (vs : List Json) × (iterate j ≡ ok vs) × All IsSigned vs

  stamp_in-array :
      (vs ws : List Json) → stamp_all author now vs ≡ value ws → AreSigned (array (items ws))
  unfolding iterate
  stamp_in-array vs ws h = (ws, ap ok (members-items ws), stamp_all-IsSigned vs ws h)

  -- A text among the members is refused, so there is none.
  no_texts :
      (s : String) (vs : List Json) (ws : List Json) → stamp_all author now (text s ∷ vs) ≢ value ws
  unfolding stamp_all
  no_texts s vs ws h =
      let (w, one, _) = >>=-eq-value (stamp author now (text s)) _ ws h in stamp-text s w one

  stamp_in-AreSigned : (j w : Json) → stamp_in author now j ≡ value w → AreSigned w
  unfolding stamp_in attempt iterate
  stamp_in-AreSigned null w h = ground arith
  stamp_in-AreSigned (boolean b) w h = ground arith
  stamp_in-AreSigned (number n) w h = ground arith
  stamp_in-AreSigned (array vs) w h =
      let (ws, stamped, last) = >>=-eq-value (stamp_all author now (members vs)) _ w h in
      subst AreSigned (value-injective _ w last) (stamp_in-array (members vs) ws stamped)
  stamp_in-AreSigned (object end) w h =
      let (ws, stamped, last) = >>=-eq-value (stamp_all author now []) _ w h in
      subst AreSigned (value-injective _ w last) ([], refl, tt)
  stamp_in-AreSigned (object (field k v fs)) w h =
      let (ws, stamped, last) = >>=-eq-value (stamp_all author now _) _ w h in
      absurd (no_texts k _ ws stamped)
  stamp_in-AreSigned (text String.[]) w h =
      let (ws, stamped, last) = >>=-eq-value (stamp_all author now []) _ w h in
      subst AreSigned (value-injective _ w last) ([], refl, tt)
  stamp_in-AreSigned (text (String.◌∷◌ c s)) w h =
      let (ws, stamped, last) = >>=-eq-value (stamp_all author now _) _ w h in
      absurd (no_texts _ _ ws stamped)

  pub stamp_entries-AreSigned :
      (j w : Json)
      → stamp_entries author now j ≡ value w
      → (es : Json) × (get "report_entries" w ≡ ok es) × AreSigned es
  unfolding stamp_entries
  stamp_entries-AreSigned j w h =
      let (es, _, h₁) = >>=-eq-value (attempt (index "report_entries" j)) _ w h in
      let (signed, stamped, h₂) = >>=-eq-value (stamp_in author now es) _ w h₁ in
      (
        signed,
        get-assign "report_entries" signed w j (attempt-inv _ w h₂),
        stamp_in-AreSigned es signed stamped,
      )
