-- ===== src/Store/Numbers.antt =====
-- The next number and the next ID: one more than the greatest, so a new one.
use ranger_ims_server.Prelude.{
  ℕ, ◌+◌, ◌<◌, String, ◌≡◌, refl, ◌∙◌, true, false, Option, none, some, List, [], ◌∷◌, map, any,
  elem, nat_eq, string_eq, ◌==◌, arith, All, All-weaken, Option-cases, inl, inr,
}
use ranger_ims_server.Store.Tables.{EntryRow, IncidentRow, Link}
use ranger_ims_server.Store.Statements.Incidents.{maximum, is_incident, numbers, items}
use ranger_ims_server.Store.Statements.Entries.{next_id}

abbrev pub next_number : Option ℕ → ℕ
next_number m = elim m [ none ↦ 1 | some n ↦ n + 1 ]

-- Every number is below the next.
All-lt-next : (ns : List ℕ) → All (λ n. n < next_number (maximum ns)) ns
unfolding maximum
All-lt-next [] = tt
All-lt-next (n ∷ ns) = elim (Option-cases (maximum ns)) [
  | inl none_yet ↦ (ground arith, All-weaken _ _ (λ k h. ground arith) ns (All-lt-next ns))
  | inr (m, greatest) ↦ (ground arith, All-weaken _ _ (λ k h. ground arith) ns (All-lt-next ns))
]

elem-lt : (m : ℕ) (ns : List ℕ) → All (λ n. n < m) ns → elem m ns ≡ false
elem-lt m [] h = refl
elem-lt m (n ∷ ns) h = ground (arith, elem-lt m ns h.1)

pub next-new : (ns : List ℕ) → elem (next_number (maximum ns)) ns ≡ false
next-new ns = elem-lt _ ns (All-lt-next ns)

any-id :
    (id : ℕ) (rows : List EntryRow)
    → any (λ (row : EntryRow). row.id == id) rows ≡ elem id (map (λ (row : EntryRow). row.id) rows)
any-id id [] = refl
any-id id (row ∷ rows) = ground (arith, any-id id rows)

-- No row has the next ID.
pub next_id-new :
    (rows : List EntryRow) → any (λ (row : EntryRow). row.id == next_id rows) rows ≡ false
unfolding next_id
next_id-new rows = any-id _ rows ∙ next-new (map (λ (row : EntryRow). row.id) rows)

pub any-incident :
    (e : String) (n : ℕ) (rows : List IncidentRow)
    → any (is_incident e n) rows ≡ elem n (numbers e rows)
any-incident e n [] = refl
any-incident e n (row ∷ rows) = ground (arith, any-incident e n rows)

-- Nothing links the next ID yet.
pub unlinked :
    (id : ℕ) (e : String) (n : ℕ) (rows : List EntryRow) (links : List (Link ℕ))
    → any (λ (row : EntryRow). row.id == id) rows ≡ false
    → All (λ (l : Link ℕ). any (λ (row : EntryRow). row.id == l.item) rows ≡ true) links
    → elem id (items e n links) ≡ false
unlinked id e n rows [] new h = refl
unlinked id e n rows (l ∷ links) new h = ground (arith, unlinked id e n rows links new h.1, h.0)
