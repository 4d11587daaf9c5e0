-- ===== src/Store/Incidents/Columns.antt =====
-- What a change of an incident's attribute is to do to the columns of its row, and how an entry is to
-- tell it: the `setIncident_…` methods of store/_db.py, described without `set_column`.
use ranger_ims_server.Prelude.{
  ℕ, String, ◌<>◌, ◌≡◌, refl, true, false, Option, none, some, List, [], ◌∷◌, map, nat_eq,
  string_eq, ◌==◌, if◌then◌else◌,
}
use ranger_ims_server.Text.{show}
use ranger_ims_server.Model.Time.{DateTime}
use ranger_ims_server.Store.Tables.{IncidentRow}
use ranger_ims_server.Store.Statements.Incidents.{
  is_incident, Change, set_column, update_incident, priority, state, summary, location_name,
  location_concentric, location_description, location_radial_hour, location_radial_minute,
}
use ranger_ims_server.Store.Entries.{automatic_report_entry}
use ranger_ims_server.Store.Incidents.{change_entry, describe_change, shown, shown_number}

-- What a column holds
pub data Cell : Type 0 where
  texts : Option String → Cell
  counts : Option ℕ → Cell

-- The columns that can be changed, each with the name that entries call it by
abbrev cells : IncidentRow → List (String × Cell)
cells row =
    ("priority", counts (some row.priority))
    ∷ ("state", texts (some row.state))
    ∷ ("summary", texts row.summary)
    ∷ ("location name", texts row.location_name)
    ∷ ("location concentric street", texts row.location_concentric)
    ∷ ("location radial hour", counts row.location_radial_hour)
    ∷ ("location radial minute", counts row.location_radial_minute)
    ∷ ("location description", texts row.location_description)
    ∷ []

abbrev pub attribute_of : Change → String
attribute_of (priority v) = "priority"
attribute_of (state v) = "state"
attribute_of (summary v) = "summary"
attribute_of (location_name v) = "location name"
attribute_of (location_concentric v) = "location concentric street"
attribute_of (location_description v) = "location description"
attribute_of (location_radial_hour v) = "location radial hour"
attribute_of (location_radial_minute v) = "location radial minute"

abbrev pub given : Change → Cell
given (priority v) = counts (some v)
given (state v) = texts (some v)
given (summary v) = texts v
given (location_name v) = texts v
given (location_concentric v) = texts v
given (location_description v) = texts v
given (location_radial_hour v) = counts v
given (location_radial_minute v) = counts v

abbrev pub text_of : Cell → String
text_of (texts none) = "None"
text_of (texts (some s)) = s
text_of (counts none) = "None"
text_of (counts (some n)) = show n

abbrev with_cell : String → Cell → List (String × Cell) → List (String × Cell)
with_cell attribute cell [] = []
with_cell attribute cell ((name, old) ∷ rest) =
    (name, if name == attribute then cell else old) ∷ with_cell attribute cell rest

-- The row is the same, but for the new value in the column of the attribute.
abbrev IsChanged : Change → IncidentRow → IncidentRow → Type 0
IsChanged change row later =
    (later.event ≡ row.event)
    × (later.number ≡ row.number)
    × (later.created ≡ row.created)
    × (cells later ≡ with_cell (attribute_of change) (given change) (cells row))

-- Row by row, that of the incident is changed and all others are the same.
abbrev pub AreChanged : Change → String → ℕ → List IncidentRow → List IncidentRow → Type 0
AreChanged change e n [] [] = Unit {0}
AreChanged change e n (row ∷ rows) (later ∷ laters) =
    (is_incident e n row ≡ true → IsChanged change row later)
    × (is_incident e n row ≡ false → later ≡ row)
    × AreChanged change e n rows laters
AreChanged change e n _ _ = ⊥

set_column-IsChanged :
    (change : Change) (row : IncidentRow) → IsChanged change row (set_column change row)
unfolding set_column string_eq
set_column-IsChanged (priority v) row = (refl, refl, refl, refl)
set_column-IsChanged (state v) row = (refl, refl, refl, refl)
set_column-IsChanged (summary v) row = (refl, refl, refl, refl)
set_column-IsChanged (location_name v) row = (refl, refl, refl, refl)
set_column-IsChanged (location_concentric v) row = (refl, refl, refl, refl)
set_column-IsChanged (location_description v) row = (refl, refl, refl, refl)
set_column-IsChanged (location_radial_hour v) row = (refl, refl, refl, refl)
set_column-IsChanged (location_radial_minute v) row = (refl, refl, refl, refl)

pub update-AreChanged :
    (change : Change) (e : String) (n : ℕ) (rows : List IncidentRow)
    → AreChanged change e n rows (map (update_incident change e n) rows)
update-AreChanged change e n [] = tt
update-AreChanged change e n (row ∷ rows) = (
  λ this. rw this (set_column-IsChanged change row),
  λ other. rw other refl,
  update-AreChanged change e n rows,
)

-- The text names the attribute and the value.
pub change_text :
    (change : Change) (author : String) (now : DateTime)
    → (change_entry change author now).text
      ≡ "Changed " <> (attribute_of change <> (" to: " <> text_of (given change)))
unfolding automatic_report_entry describe_change shown shown_number
change_text (priority v) author now = refl
change_text (state v) author now = refl
change_text (summary none) author now = refl
change_text (summary (some v)) author now = refl
change_text (location_name none) author now = refl
change_text (location_name (some v)) author now = refl
change_text (location_concentric none) author now = refl
change_text (location_concentric (some v)) author now = refl
change_text (location_description none) author now = refl
change_text (location_description (some v)) author now = refl
change_text (location_radial_hour none) author now = refl
change_text (location_radial_hour (some v)) author now = refl
change_text (location_radial_minute none) author now = refl
change_text (location_radial_minute (some v)) author now = refl
