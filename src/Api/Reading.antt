-- ===== src/Api/Reading.antt =====
-- application/_api.py: the handlers that read incidents and incident reports.
use ranger_ims_server.Prelude.{
  ℕ, String, Bool, true, false, Option, none, some, List, [], ◌∷◌, keep, map, elem, string_eq,
}
use ranger_ims_server.Auth.Authorization.{read_incidents, write_incident_reports}
use ranger_ims_server.Auth.Claims
use ranger_ims_server.Auth.Claims.{AuthError}
use ranger_ims_server.Auth.Provider.{
  Settings, Jwt, Request, authorize_request, authorize_request_for_incident_report,
  authenticate_request,
}
use ranger_ims_server.Model.{Incident, IncidentReport, ReportEntry}
use ranger_ims_server.Store.Values.{Result, ok, err, no_such_incident}
use ranger_ims_server.Store.Transactions.{Action}
use ranger_ims_server.Store.Access.{access_lists}
use ranger_ims_server.Store.Fetch.{
  incidents, incident_with_number, incident_reports, incident_report_with_number,
  incident_reports_attached_to_incident,
}
use ranger_ims_server.Api.Server.{
  Server, Outcome, value, reply, raised, refused, failed, not_found, invalid_query, give, stop,
  throw, call, authorized, author_of, ◌>>=◌,
}
use ranger_ims_server.Api.Incidents.{IncidentQuery, absent, unreadable, incident, number_of}

-- `user.shortNames[0] in (entry.author for entry in incidentReport.reportEntries)`
abbrev pub wrote : String → IncidentReport → Bool
wrote name report = elem name (map (λ (entry : ReportEntry). entry.author) report.report_entries)

-- The name is looked up for each report, so there may be none of it where there is no report.
unfoldable pub own_reports : Request → List IncidentReport → Server (List IncidentReport)
own_reports r [] = give []
own_reports r (report ∷ reports) = do
  name ← author_of r
  give (keep (wrote name) (report ∷ reports))

unfoldable pub queried_reports : String → IncidentQuery → Server (List IncidentReport)
queried_reports e absent = call (incident_reports e)
queried_reports e unreadable = stop invalid_query
queried_reports e (incident n) = call (incident_reports_attached_to_incident e n)

-- `except NoSuchIncidentError`
found : Result Incident → Outcome Incident
found (ok i) = value i
found (err no_such_incident) = reply not_found
found (err e) = raised (failed e)

find : Action Incident → Server Incident
find m c = (found (m c).0, (m c).1)

module _ (jwt : Jwt) (s : Settings) (now : ℕ) where
  abbrev pub limited : Request → Server (Request × Bool)
  limited r = give (r, true)

  -- A request that may not read incidents is to write incident reports, and its access is limited.
  unfoldable pub full_or_limited :
      String → Claims.Result (Unit {0}) × Request → Server (Request × Bool)
  full_or_limited e (Claims.Result.ok _, r) = give (r, false)
  full_or_limited e (Claims.Result.err AuthError.not_authorized, r) =
      authorized jwt s now (some e) write_incident_reports r >>= limited
  full_or_limited e (Claims.Result.err f, r) = throw (refused f)

  unfoldable pub reports_access : String → Request → Server (Request × Bool)
  unfolding full_or_limited
  reports_access e r c =
      full_or_limited e (authorize_request jwt s (access_lists c) now (some e) read_incidents r) c

  unfoldable pub select_reports :
      String → IncidentQuery → Request × Bool → Server (List IncidentReport)
  select_reports e query (r, true) = call (incident_reports e) >>= own_reports r
  select_reports e query (r, false) = queried_reports e query

  -- `listIncidentReportsResource`
  unfoldable pub list_incident_reports :
      String → IncidentQuery → Request → Server (List IncidentReport)
  unfolding select_reports
  list_incident_reports e query r = reports_access e r >>= select_reports e query

  -- `listIncidentsResource`
  unfoldable pub list_incidents : String → Request → Server (List Incident)
  list_incidents e r = do r' ← authorized jwt s now (some e) read_incidents r; call (incidents e)

  -- `readIncidentResource`; the number is that of the path, if it is one.
  unfoldable pub read_incident : String → Option ℕ → Request → Server Incident
  unfolding find found
  read_incident e number r = do
    r' ← authorized jwt s now (some e) read_incidents r
    n ← number_of number
    find (incident_with_number e n)

  seen : Claims.Result (Unit {0}) × Request → IncidentReport → Server IncidentReport
  seen (Claims.Result.ok _, r) report = give report
  seen (Claims.Result.err f, r) report = throw (refused f)

  may_see : Request → IncidentReport → Server IncidentReport
  may_see r report c =
      seen
        (authorize_request_for_incident_report jwt s (access_lists c) now report.event_id
          (map (λ (entry : ReportEntry). entry.author) report.report_entries) r)
        report c

  no_number : Claims.Result (Unit {0}) × Request → Server IncidentReport
  no_number (Claims.Result.ok _, r) = stop not_found
  no_number (Claims.Result.err f, r) = throw (refused f)

  -- `readIncidentReportResource`: the report is read before the request is authorized.
  unfoldable pub read_incident_report : String → Option ℕ → Request → Server IncidentReport
  unfolding may_see seen no_number
  read_incident_report e none r = no_number (authenticate_request jwt now r)
  read_incident_report e (some n) r = call (incident_report_with_number e n) >>= may_see r
