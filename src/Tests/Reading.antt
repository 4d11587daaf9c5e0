-- ===== src/Tests/Reading.antt =====
-- A request to read incident reports, of a user who may only write them.
use ranger_ims_server.Prelude.{
  String, ◌≡◌, refl, true, false, ◌⊎◌, none, some, List, [], ◌∷◌, All, string_eq, nat_eq,
}
use ranger_ims_server.Auth.Authorization.{read_incidents, write_incident_reports, meets}
use ranger_ims_server.Auth.Acl.{ImsUser, match_acl}
use ranger_ims_server.Auth.Provider.{
  authorize_request, authenticate_request, check_authentication, user_from_bearer_authorization,
  authorizations_for_user, event_rights,
}
use ranger_ims_server.Auth.Provider.Requests.{ComesFrom}
use ranger_ims_server.Model.{IncidentReport, sort_entries}
use ranger_ims_server.Store.Values.{from_date_time_value}
use ranger_ims_server.Store.Tables.{Db}
use ranger_ims_server.Store.Transactions.{Connection, run_query, run_interaction}
use ranger_ims_server.Store.Statements.Access.{event_access}
use ranger_ims_server.Store.Statements.Incidents.{fits}
use ranger_ims_server.Store.Statements.Entries.{incident_report_report_entries}
use ranger_ims_server.Store.Statements.Reports.{incident_report, incident_report_numbers}
use ranger_ims_server.Store.Entries.{entry_of_row}
use ranger_ims_server.Store.Fetch.{
  incident_reports, fetch_reports, fetch_incident_report, find_incident_report,
}
use ranger_ims_server.Store.Access.{access_lists}
use ranger_ims_server.Store.Calls.{schema}
use ranger_ims_server.Api.Server.{value, authorized, author_of, call}
use ranger_ims_server.Api.Incidents.{absent}
use ranger_ims_server.Api.Reading.{wrote, own_reports, reports_access, list_incident_reports}
use ranger_ims_server.Api.Confidential.{reports_are_confidential}
use ranger_ims_server.Tests.Data.{noon, stamp}
use ranger_ims_server.Tests.Api.{jwt, settings, request}

abbrev db : Db
db = record schema {
  events = "2019" ∷ [];
  access = record { event = "2019"; expression = "person:Tool"; mode = "report" } ∷ [];
  report_entries =
      record { id = 1; author = "Tool"; text = "Found"; created = stamp; generated = false } ∷ [];
  incident_reports =
      record { event = "2019"; number = 1; created = stamp; summary = none; incident_number = none }
      ∷ record {
        event = "2019";
        number = 2;
        created = stamp;
        summary = none;
        incident_number = none;
      }
      ∷ [];
  incident_report_report_entries = record { event = "2019"; number = 1; item = 1 } ∷ [];
}

abbrev connection : Connection
connection = record { committed = db; working = db }

abbrev own_report : IncidentReport
own_report = record {
  event_id = "2019";
  number = 1;
  created = noon;
  summary = none;
  incident_number = none;
  report_entries =
      record { created = noon; author = "Tool"; automatic = false; text = "Found" } ∷ [];
}

only_own :
    (list_incident_reports jwt settings 150 "2019" absent request connection).0
    ≡ value (own_report ∷ [])
unfolding list_incident_reports reports_access own_reports authorized author_of call
    authorize_request authenticate_request check_authentication user_from_bearer_authorization
    authorizations_for_user event_rights match_acl access_lists run_query event_access
    incident_reports run_interaction fetch_reports fetch_incident_report find_incident_report
    incident_report incident_report_numbers incident_report_report_entries entry_of_row
    from_date_time_value sort_entries fits string_eq nat_eq
only_own = refl

reports_are_confidential_example :
    (u : ImsUser) × ComesFrom jwt 150 request u
    × ((meets read_incidents
            (authorizations_for_user settings (access_lists connection) (some u) (some "2019"))
          ≡ true)
        ⊎ ((meets write_incident_reports
                (authorizations_for_user settings (access_lists connection) (some u) (some "2019"))
              ≡ true)
            × ((name : String) (names : List String)
                → u.short_names ≡ name ∷ names
                → All (λ report. wrote name report ≡ true) (own_report ∷ []))))
reports_are_confidential_example =
    reports_are_confidential jwt settings 150 "2019" absent request connection (own_report ∷ [])
      only_own
