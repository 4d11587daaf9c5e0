-- ===== src/Store/Abstract.antt =====
-- The store of incidents as its users may think of it: for each event and number the incident, if there
-- is one that can be read, with its report entries in no order.
use mathlib.Core.Path.{fun_ext}
use mathlib.Core.List.{Perm}
use mathlib.Core.List.Perm
use mathlib.Core.Quot.{sound}
use mathlib.Mathlib.Data.Multiset.Defs.{Multiset, of_list}
use mathlib.Mathlib.Data.Multiset.ZeroCons.{cons}
use ranger_ims_server.Prelude.{
  ℕ, String, ◌≡◌, ap, sym, ◌∙◌, true, false, Option, none, some, List, [], ◌∷◌, ◌++◌, inl, inr,
  nat_eq, string_eq, if◌then◌else◌, Bool-cases, arith,
}
use ranger_ims_server.Model.{ReportEntry, Incident, IncidentState, sort_entries}
use ranger_ims_server.Model.Build.Sorting.{sort_entries_sorts}
use ranger_ims_server.Model.Time.{DateTime, normalize}
use ranger_ims_server.Store.Values.{
  Result, ok, err, TimeStamp, as_date_time_value, as_incident_state_value,
}
use ranger_ims_server.Store.Transactions.{Connection}
use ranger_ims_server.Store.Statements.Incidents.{fits, refers, Change}
use ranger_ims_server.Store.Incidents.{set_incident_state}
use ranger_ims_server.Store.Incidents.State.{
  state_entry, state-fits, state-admitted, set_state_effect,
}
use ranger_ims_server.Store.Incidents.Others.{is_other, set_attribute_others}
use ranger_ims_server.Store.Fetch.{incident_with_number}
use ranger_ims_server.Store.Links.{IsLinked}

-- An incident without its entries, and the entries
abbrev pub Seen : Type 0
Seen = Incident × Multiset ReportEntry

abbrev pub seen : Incident → Seen
seen i = (record i { report_entries = [] }, of_list i.report_entries)

abbrev pub IncidentStore : Type 0
IncidentStore = String → ℕ → Option Seen

abbrev pub seen_of : Result Incident → Option Seen
seen_of (ok i) = some (seen i)
seen_of (err e) = none

-- What can be read over a connection
unfoldable pub abstract_of : Connection → IncidentStore
abstract_of c e n = seen_of (incident_with_number e n c).0

-- An incident in its new state, with one entry more
abbrev pub put_state : IncidentState → ReportEntry → Option Seen → Option Seen
put_state s entry none = none
put_state s entry (some (i, entries)) = some (record i { state = s }, cons entry entries)

-- The new state of one incident; the others are as they were.
unfoldable pub set_state_at :
    IncidentState → String → ℕ → ReportEntry → IncidentStore → IncidentStore
set_state_at s e n entry st f k = if is_other e n f k then st f k else put_state s entry (st e n)

last-perm : (xs : List ReportEntry) (x : ReportEntry) → Perm (xs ++ x ∷ []) (x ∷ xs)
last-perm [] x = Perm.refl (x ∷ [])
last-perm (y ∷ xs) x = Perm.trans (Perm.cons y (last-perm xs x)) (Perm.swap x y xs)

sorted-perm :
    (xs : List ReportEntry) (x : ReportEntry)
    → Perm (sort_entries (xs ++ x ∷ [])) (x ∷ sort_entries xs)
sorted-perm xs x =
    Perm.trans (sort_entries_sorts (xs ++ x ∷ [])).1
      (Perm.trans (last-perm xs x) (Perm.cons x (Perm.symm (sort_entries_sorts xs).1)))

-- An incident that has got one entry more, sorted, is seen with that entry more.
seen-more :
    (i : Incident) (s : IncidentState) (entries : List ReportEntry) (entry : ReportEntry)
    → i.report_entries ≡ sort_entries entries
    → seen (record i { state = s; report_entries = sort_entries (entries ++ entry ∷ []) })
      ≡ (record (seen i).0 { state = s }, cons entry (seen i).1)
seen-more i s entries entry h =
    ap (λ bag. (record i { state = s; report_entries = [] }, bag))
      (sound (sorted-perm entries entry) ∙ ap (λ es. of_list (entry ∷ es)) (sym h))

same_place :
    (e : String) (n : ℕ) (f : String) (k : ℕ) → is_other e n f k ≡ false → (f ≡ e) × (k ≡ n)
same_place e n f k h = ground arith

-- Setting the state of an incident that can be read does, as far as incidents can be read at all, what it
-- promises: that one incident is in the new state and has one entry more, an automatic one by the author,
-- and every other incident is as it was. The database is to keep its links to rows that exist, the event
-- and the incident's number are to be good for SQLite, and the time is to lie after the epoch.
pub set_state_refines :
    (s : IncidentState) (e : String) (n : ℕ) (author : String) (now : DateTime) (c : Connection)
    (created : TimeStamp) (i : Incident)
    → IsLinked c.working
    → fits n ≡ true
    → refers e n c.working ≡ true
    → as_date_time_value (normalize now) ≡ ok created
    → (incident_with_number e n c).0 ≡ ok i
    → ((set_incident_state e n s author now c).0 ≡ ok tt)
      × (abstract_of (set_incident_state e n s author now c).1
          ≡ set_state_at s e n (state_entry s author now) (abstract_of c))
unfolding abstract_of set_state_at set_incident_state
set_state_refines s e n author now c created i linked fit known stamped read =
    let (done, (entries, sorted, after)) =
      set_state_effect s e n author now c created i linked fit known stamped read in
    (
      done,
      fun_ext (λ f. fun_ext (λ k. elim (Bool-cases (is_other e n f k)) [
        | inl other ↦
            ap seen_of (
              set_attribute_others (Change.state (as_incident_state_value s)) e f n k author now c
                created linked fit (state-fits s) known (state-admitted s e c.working) stamped
                other)
            ∙ ap
                (λ b.
                  if b
                  then abstract_of c f k
                  else put_state s (state_entry s author now) (abstract_of c e n))
                (sym other)
        | inr same ↦
            let (event_same, number_same) = same_place e n f k same in
            ap (λ g. abstract_of (set_incident_state e n s author now c).1 g k) event_same
            ∙ ap (λ m. abstract_of (set_incident_state e n s author now c).1 e m) number_same
            ∙ ap seen_of after
            ∙ ap some (seen-more i s entries (state_entry s author now) sorted)
            ∙ ap (λ r. put_state s (state_entry s author now) (seen_of r)) (sym read)
            ∙ ap
                (λ b.
                  if b
                  then abstract_of c f k
                  else put_state s (state_entry s author now) (abstract_of c e n))
                (sym same)
      ])),
    )
