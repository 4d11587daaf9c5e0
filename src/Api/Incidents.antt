-- ===== src/Api/Incidents.antt =====
-- application/_api.py: `editIncidentResource` and `editIncidentReportResource`.
use ranger_ims_server.Prelude.{
  ℕ, String, Bool, true, false, not, Option, none, some, List, map, nat_eq, string_eq, ◌==◌,
  if◌then◌else◌,
}
use ranger_ims_server.Auth.Authorization.{write_incidents, write_incident_reports}
use ranger_ims_server.Auth.Provider.{Settings, Jwt, Request}
use ranger_ims_server.Model.{IncidentState, IncidentPriority, ReportEntry}
use ranger_ims_server.Model.Time.{DateTime, normalize}
use ranger_ims_server.Store.Incidents.{
  set_incident_priority, set_incident_state, set_incident_summary, set_incident_rangers,
  set_incident_incident_types, set_incident_location_name, set_incident_location_concentric_street,
  set_incident_location_radial_hour, set_incident_location_radial_minute,
  set_incident_location_description, add_report_entries_to_incident,
}
use ranger_ims_server.Store.Reports.{
  set_incident_report_summary, attach_incident_report_to_incident,
  detach_incident_report_from_incident, add_report_entries_to_incident_report,
}
use ranger_ims_server.Api.Server.{
  Server, Reply, no_content, not_found, bad_request, invalid_query, give, stop, call, if_set, Body,
  body_of, authorized, author_of, ◌>>=◌, ◌>>◌,
}

-- A value that the JSON codec decodes, or refuses
pub data Edit (A : Type 0) : Type 0 where
  unset undecodable : Edit A
  edit : A → Edit A

-- A key that is there with null, or with a value
abbrev pub Nullable : Type 0 → Type 0
Nullable A = Option (Option A)

pub record LocationEdits : Type 0 where
  pub name : Nullable String
  pub concentric : Nullable String
  pub radial_hour : Nullable ℕ
  pub radial_minute : Nullable ℕ
  pub description : Nullable String

-- `created` tells whether the key is there; the entries are their texts.
pub record IncidentEdits : Type 0 where
  pub number : Option ℕ
  pub created : Bool
  pub priority : Edit IncidentPriority
  pub state : Edit IncidentState
  pub summary : Nullable String
  pub ranger_handles : Option (List String)
  pub incident_types : Option (List String)
  pub location : Nullable LocationEdits
  pub report_entries : Option (List String)

pub record ReportEdits : Type 0 where
  pub number : Option ℕ
  pub created : Bool
  pub summary : Nullable String
  pub report_entries : Option (List String)

-- `applyEdit` with a cast, under `except JSONCodecError`
unfoldable pub apply_edit : {A : Type 0} → Edit A → (A → Server (Unit {0})) → Server (Unit {0})
apply_edit unset f = give tt
apply_edit undecodable f = stop bad_request
apply_edit (edit a) f = f a

-- `ReportEntry(author=…, text=…, created=now, automatic=False)`
unfoldable pub typed_entry : String → DateTime → String → ReportEntry
typed_entry author clock text = record {
  created = normalize clock;
  author = author;
  automatic = false;
  text = text;
}

unfoldable pub same_number : Option ℕ → ℕ → Bool
same_number none n = true
same_number (some m) n = m == n

module _ (e : String) (n : ℕ) (author : String) (clock : DateTime) where
  -- For null, the setters are called without `await`: they do not run.
  unfoldable pub edit_location : Option LocationEdits → Server (Unit {0})
  edit_location none = give tt
  edit_location (some l) = do
    if_set l.name (λ v. call (set_incident_location_name e n v author clock))
    if_set l.concentric (λ v. call (set_incident_location_concentric_street e n v author clock))
    if_set l.radial_hour (λ v. call (set_incident_location_radial_hour e n v author clock))
    if_set l.radial_minute (λ v. call (set_incident_location_radial_minute e n v author clock))
    if_set l.description (λ v. call (set_incident_location_description e n v author clock))

  unfoldable pub apply_edits : IncidentEdits → Server Reply
  apply_edits edits = do
    apply_edit edits.priority (λ p. call (set_incident_priority e n p author clock))
    apply_edit edits.state (λ s. call (set_incident_state e n s author clock))
    if_set edits.summary (λ v. call (set_incident_summary e n v author clock))
    if_set edits.ranger_handles (λ xs. call (set_incident_rangers e n xs author clock))
    if_set edits.incident_types (λ xs. call (set_incident_incident_types e n xs author clock))
    if_set edits.location edit_location
    if_set edits.report_entries (λ texts.
        call (add_report_entries_to_incident e n (map (typed_entry author clock) texts) author))
    give no_content

unfoldable pub number_of : Option ℕ → Server ℕ
number_of none = stop not_found
number_of (some n) = give n

unfoldable pub unless : Bool → Reply → Server (Unit {0})
unless true r = give tt
unless false r = stop r

module _ (jwt : Jwt) (s : Settings) (now : ℕ) (clock : DateTime) where
  -- The number is that of the path, if it is one.
  unfoldable pub edit_incident : String → Option ℕ → Body IncidentEdits → Request → Server Reply
  edit_incident e number body r = do
    r' ← authorized jwt s now (some e) write_incidents r
    author ← author_of r'
    n ← number_of number
    edits ← body_of body
    unless (same_number edits.number n) bad_request
    unless (not edits.created) bad_request
    apply_edits e n author clock edits

-- The query of a request that edits a report: `action`, if it is there, and `incident`, which may be
-- absent or no number
pub data IncidentQuery : Type 0 where
  absent unreadable : IncidentQuery
  incident : ℕ → IncidentQuery

unfoldable pub queried : IncidentQuery → Server ℕ
queried absent = stop invalid_query
queried unreadable = stop invalid_query
queried (incident n) = give n

module _ (e : String) (n : ℕ) (author : String) (clock : DateTime) where
  run_action : String → ℕ → Server (Unit {0})
  run_action action i =
      if action == "attach"
      then call (attach_incident_report_to_incident n e i author clock)
      else if action == "detach"
      then call (detach_incident_report_from_incident n e i author clock)
      else stop invalid_query

  unfoldable pub attach_or_detach : Option String → IncidentQuery → Server (Unit {0})
  unfolding run_action
  attach_or_detach none query = give tt
  attach_or_detach (some action) query = do i ← queried query; run_action action i

  unfoldable pub apply_report_edits : ReportEdits → Server Reply
  apply_report_edits edits = do
    if_set edits.summary (λ v. call (set_incident_report_summary e n v author clock))
    if_set edits.report_entries (λ texts.
        call
          (add_report_entries_to_incident_report e n (map (typed_entry author clock) texts) author))
    give no_content

module _ (jwt : Jwt) (s : Settings) (now : ℕ) (clock : DateTime) where
  unfoldable pub edit_incident_report :
      String → Option ℕ → Option String → IncidentQuery → Body ReportEdits → Request → Server Reply
  edit_incident_report e number action query body r = do
    r' ← authorized jwt s now (some e) write_incident_reports r
    author ← author_of r'
    n ← number_of number
    attach_or_detach e n author clock action query
    edits ← body_of body
    unless (same_number edits.number n) bad_request
    unless (not edits.created) bad_request
    apply_report_edits e n author clock edits
