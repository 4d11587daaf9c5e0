-- ===== src/Model.antt =====
-- model/: incidents, incident reports and their parts.
pub mod Time
pub mod Text
pub mod Build
pub mod Ranger
use ranger_ims_server.Prelude.{
  ℕ, String, Bool, true, false, not, Option, none, some, List, [], ◌∷◌, elem, string_eq, nat_eq, Eq,
  ◌==◌, if◌then◌else◌,
}
use ranger_ims_server.Text.{split}
use Time.{DateTime, normalize, before, same}
use Text.{str_lt}

-- model/_state.py
pub data IncidentState : Type 0 where
  new on_hold dispatched on_scene closed : IncidentState

-- `stateDescriptions`, by `str(state)`
unfoldable pub describe_state : IncidentState → String
describe_state new = "new"
describe_state on_hold = "on hold"
describe_state dispatched = "dispatched"
describe_state on_scene = "on scene"
describe_state closed = "closed"

-- model/_priority.py
pub data IncidentPriority : Type 0 where
  high normal low : IncidentPriority

unfoldable pub describe_priority : IncidentPriority → String
describe_priority high = "high"
describe_priority normal = "normal"
describe_priority low = "low"

-- model/_entry.py. `created` has been normalized.
pub record ReportEntry : Type 0 where
  pub created : DateTime
  pub author : String
  pub automatic : Bool
  pub text : String

-- model/_address.py
pub data Address : Type 0 where
  text_only : Option String → Address
  rod_garett : Option String → Option String → Option ℕ → Option ℕ → Address

-- `address.description`
unfoldable pub description : Address → Option String
description (text_only d) = d
description (rod_garett d c h m) = d

unfoldable pub concentric : Address → Option String
concentric (text_only d) = none
concentric (rod_garett d c h m) = c

unfoldable pub radial_hour : Address → Option ℕ
radial_hour (text_only d) = none
radial_hour (rod_garett d c h m) = h

unfoldable pub radial_minute : Address → Option ℕ
radial_minute (text_only d) = none
radial_minute (rod_garett d c h m) = m

-- model/_location.py; `convertAddress` leaves no location without an address.
pub record Location : Type 0 where
  pub name : Option String
  pub address : Address

-- A frozen set is a list without repetitions. Its order stands for the one that Python iterates in.
unfoldable pub freeze {ℓ} : {A : Type ℓ} ⦃e : Eq A⦄ → List A → List A
freeze [] = []
freeze (x ∷ xs) = let rest = freeze xs in if elem x xs then rest else x ∷ rest

-- `(not automatic, text) < (not automatic, text)`
text_lt : Bool → Bool → String → String → Bool
text_lt true true s t = str_lt s t
text_lt false false s t = str_lt s t
text_lt true false s t = true
text_lt false true s t = false

-- `<` on report entries: by time, author, whether they are automatic, and text.
pub entry_lt : ReportEntry → ReportEntry → Bool
entry_lt a b =
    if same a.created b.created
    then (if a.author == b.author
        then text_lt a.automatic b.automatic a.text b.text
        else str_lt a.author b.author)
    else before a.created b.created

unfoldable pub insert_entry : ReportEntry → List ReportEntry → List ReportEntry
insert_entry x [] = x ∷ []
insert_entry x (y ∷ ys) =
    let rest = insert_entry x ys in if entry_lt y x then y ∷ rest else x ∷ y ∷ ys

-- `sorted_tuple`, which is stable
unfoldable pub sort_entries : List ReportEntry → List ReportEntry
unfolding text_lt entry_lt insert_entry
sort_entries [] = []
sort_entries (x ∷ xs) = insert_entry x (sort_entries xs)

-- model/_incident.py
pub record Incident : Type 0 where
  pub event_id : String
  pub number : ℕ
  pub created : DateTime
  pub state : IncidentState
  pub priority : IncidentPriority
  pub summary : Option String
  pub location : Location
  pub ranger_handles : List String
  pub incident_types : List String
  pub report_entries : List ReportEntry
  pub incident_report_numbers : List ℕ

-- model/_report.py
pub record IncidentReport : Type 0 where
  pub event_id : String
  pub number : ℕ
  pub created : DateTime
  pub summary : Option String
  pub incident_number : Option ℕ
  pub report_entries : List ReportEntry

first_line : List String → String
first_line [] = ""
first_line (line ∷ lines) = line

summary_from_entries : List ReportEntry → String
summary_from_entries [] = ""
summary_from_entries (e ∷ es) =
    let rest = summary_from_entries es in if e.automatic then rest else first_line (split 10 e.text)

unfoldable pub summary_from_report : Option String → List ReportEntry → String
unfolding first_line summary_from_entries
summary_from_report none entries = summary_from_entries entries
summary_from_report (some summary) entries =
    if summary == "" then summary_from_entries entries else summary
