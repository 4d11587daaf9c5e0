-- ===== src/Store/Entries/Initial.antt =====
-- The initial entries of an incident: those of its attributes that are set.
use ranger_ims_server.Prelude.{
  ℕ, String, true, false, Option, none, some, List, [], ◌∷◌, string_eq, ◌==◌, All, All-append,
  if◌then◌else◌,
}
use ranger_ims_server.Model.{
  IncidentState, new, on_hold, dispatched, on_scene, closed, IncidentPriority, high, normal, low,
  ReportEntry, Incident,
}
use ranger_ims_server.Model.Time.{DateTime}
use ranger_ims_server.Store.Entries.{
  automatic_report_entry, if_text, if_number, if_present, if_any, if_priority, if_state,
  initial_report_entries,
}

module _ (P : ReportEntry → Type 0) (entry : String → ReportEntry)
    (h : (value : String) → P (entry value)) where
  if_text-All : (o : Option String) → All P (if_text entry o)
  unfolding if_text
  if_text-All none = tt
  if_text-All (some text) = elim (text == "") as (λ b. All P (if b then [] else entry text ∷ [])) [
    | true ↦ tt
    | false ↦ (h text, tt)
  ]

  if_number-All : (o : Option ℕ) → All P (if_number entry o)
  unfolding if_number
  if_number-All none = tt
  if_number-All (some n) = (h _, tt)

  if_present-All : (o : Option String) → All P (if_present entry o)
  unfolding if_present
  if_present-All none = tt
  if_present-All (some text) = (h text, tt)

  if_any-All : (xs : List String) → All P (if_any entry xs)
  unfolding if_any
  if_any-All [] = tt
  if_any-All (x ∷ xs) = (h _, tt)

  if_priority-All : (p : IncidentPriority) → All P (if_priority entry p)
  unfolding if_priority
  if_priority-All high = (h _, tt)
  if_priority-All normal = tt
  if_priority-All low = (h _, tt)

  if_state-All : (s : IncidentState) → All P (if_state entry s)
  unfolding if_state
  if_state-All new = tt
  if_state-All on_hold = (h _, tt)
  if_state-All dispatched = (h _, tt)
  if_state-All on_scene = (h _, tt)
  if_state-All closed = (h _, tt)

ruleset initial = (
  All-append, if_text-All, if_number-All, if_present-All, if_any-All, if_priority-All, if_state-All,
)

-- What holds of every automatic entry by the author holds of all initial ones.
pub initial-All :
    (P : ReportEntry → Type 0) (i : Incident) (author : String) (now : DateTime)
    → ((attribute value : String) → P (automatic_report_entry author now attribute value))
    → All P (initial_report_entries i author now)
unfolding initial_report_entries
initial-All P i author now h = search initial depth 14
