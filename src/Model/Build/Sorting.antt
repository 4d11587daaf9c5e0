-- ===== src/Model/Build/Sorting.antt =====
-- `sorted_tuple` on report entries: the result is in order and holds the entries that were given.
use mathlib.Core.List.{Perm}
use mathlib.Core.List.Perm
use ranger_ims_server.Prelude.{
  ◌≡◌, refl, ap, ◌∙◌, String, Bool, true, false, List, [], ◌∷◌, All, Bool-cases, inl, inr, arith,
  string_eq, nat_eq,
}
use ranger_ims_server.Model.Time.{DateTime, before, same}
use ranger_ims_server.Model.Text.{str_lt}
use ranger_ims_server.Model.{ReportEntry, entry_lt, text_lt, insert_entry, sort_entries}

-- No entry comes before its predecessor.
abbrev pub IsSorted : List ReportEntry → Type 0
IsSorted [] = Unit {0}
IsSorted (a ∷ []) = Unit {0}
IsSorted (a ∷ b ∷ es) = (entry_lt b a ≡ false) × IsSorted (b ∷ es)

str_lt_asymm : (s t : String) → str_lt s t ≡ true → str_lt t s ≡ false
unfolding str_lt nat_eq
str_lt_asymm String.[] String.[] h = cc
str_lt_asymm String.[] (String.◌∷◌ d t) h = refl
str_lt_asymm (String.◌∷◌ c s) String.[] h = cc
str_lt_asymm (String.◌∷◌ c s) (String.◌∷◌ d t) h = ground (arith, str_lt_asymm s t)

before_asymm : (a b : DateTime) → before a b ≡ true → before b a ≡ false
unfolding before
before_asymm a b h = ground arith

same_symm : (a b : DateTime) → same a b ≡ same b a
unfolding same
same_symm a b = ground arith

text_lt_asymm : (p q : Bool) (s t : String) → text_lt p q s t ≡ true → text_lt q p t s ≡ false
unfolding text_lt
text_lt_asymm true true s t h = str_lt_asymm s t h
text_lt_asymm false false s t h = str_lt_asymm s t h
text_lt_asymm true false s t h = refl
text_lt_asymm false true s t h = cc

entry_lt_asymm : (a b : ReportEntry) → entry_lt a b ≡ true → entry_lt b a ≡ false
unfolding entry_lt
entry_lt_asymm a b h = ground (
  arith,
  same_symm a.created b.created,
  before_asymm a.created b.created,
  text_lt_asymm a.automatic b.automatic a.text b.text,
  str_lt_asymm a.author b.author,
)

-- Behind an entry that comes no later than the new one and the rest, inserting keeps the order.
insert-behind-IsSorted :
    (x y : ReportEntry) (ys : List ReportEntry)
    → entry_lt x y ≡ false
    → IsSorted (y ∷ ys)
    → IsSorted (insert_entry x ys)
    → IsSorted (y ∷ insert_entry x ys)
unfolding insert_entry
insert-behind-IsSorted x y [] h s k = (h, tt)
insert-behind-IsSorted x y (z ∷ zs) h s k = elim (Bool-cases (entry_lt z x)) [
  | inl after ↦ ground arith
  | inr before ↦ ground arith
]

insert_entry-IsSorted :
    (x : ReportEntry) (ys : List ReportEntry) → IsSorted ys → IsSorted (insert_entry x ys)
unfolding insert_entry
insert_entry-IsSorted x [] s = tt
insert_entry-IsSorted x (y ∷ []) s = ground (arith, entry_lt_asymm y x)
insert_entry-IsSorted x (y ∷ z ∷ ys) s = elim (Bool-cases (entry_lt y x)) [
  | inl after ↦ rw after (
      insert-behind-IsSorted x y (z ∷ ys) (entry_lt_asymm y x after) s
        (insert_entry-IsSorted x (z ∷ ys) s.1))
  | inr before ↦ rw before (before, s)
]

pub sort_entries-IsSorted : (es : List ReportEntry) → IsSorted (sort_entries es)
unfolding sort_entries
sort_entries-IsSorted [] = tt
sort_entries-IsSorted (x ∷ xs) =
    insert_entry-IsSorted x (sort_entries xs) (sort_entries-IsSorted xs)

pub insert_entry-perm :
    (x : ReportEntry) (ys : List ReportEntry) → Perm (insert_entry x ys) (x ∷ ys)
unfolding insert_entry
insert_entry-perm x [] = Perm.refl (x ∷ [])
insert_entry-perm x (y ∷ ys) = elim (Bool-cases (entry_lt y x)) [
  | inl after ↦ rw after (Perm.trans (Perm.cons y (insert_entry-perm x ys)) (Perm.swap x y ys))
  | inr before ↦ rw before (Perm.refl (x ∷ y ∷ ys))
]

sort_entries-perm : (es : List ReportEntry) → Perm (sort_entries es) es
unfolding sort_entries
sort_entries-perm [] = Perm.refl []
sort_entries-perm (x ∷ xs) =
    Perm.trans (insert_entry-perm x (sort_entries xs)) (Perm.cons x (sort_entries-perm xs))

-- Sorting report entries puts them in order and loses and makes up none.
pub sort_entries_sorts :
    (es : List ReportEntry) → IsSorted (sort_entries es) × Perm (sort_entries es) es
sort_entries_sorts es = (sort_entries-IsSorted es, sort_entries-perm es)

-- An entry that comes no later than those in order goes to the front.
insert_entry-front :
    (x : ReportEntry) (ys : List ReportEntry) → IsSorted (x ∷ ys) → insert_entry x ys ≡ x ∷ ys
unfolding insert_entry
insert_entry-front x [] s = refl
insert_entry-front x (y ∷ ys) s = rw s.0

sort-IsSorted-same : (es : List ReportEntry) → IsSorted es → sort_entries es ≡ es
unfolding sort_entries
sort-IsSorted-same [] s = refl
sort-IsSorted-same (x ∷ []) s = insert_entry-front x [] s
sort-IsSorted-same (x ∷ y ∷ es) s =
    ap (insert_entry x) (sort-IsSorted-same (y ∷ es) s.1) ∙ insert_entry-front x (y ∷ es) s

pub sort_entries_idempotent :
    (es : List ReportEntry) → sort_entries (sort_entries es) ≡ sort_entries es
sort_entries_idempotent es = sort-IsSorted-same (sort_entries es) (sort_entries-IsSorted es)

-- What holds of all entries holds of them sorted.
module _ (P : ReportEntry → Type 0) where
  insert_entry-All :
      (x : ReportEntry) (ys : List ReportEntry) → P x → All P ys → All P (insert_entry x ys)
  unfolding insert_entry
  insert_entry-All x [] h k = (h, tt)
  insert_entry-All x (y ∷ ys) h k = elim (Bool-cases (entry_lt y x)) [
    | inl after ↦ rw after (k.0, insert_entry-All x ys h k.1)
    | inr before ↦ rw before (h, k)
  ]

  pub sort_entries-All : (xs : List ReportEntry) → All P xs → All P (sort_entries xs)
  unfolding sort_entries
  sort_entries-All [] k = tt
  sort_entries-All (x ∷ xs) k = insert_entry-All x (sort_entries xs) k.0 (sort_entries-All xs k.1)
