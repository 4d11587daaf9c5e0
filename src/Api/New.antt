-- ===== src/Api/New.antt =====
-- application/_api.py: `newIncidentResource` and `newIncidentReportResource`.
pub mod Typed
pub mod Effect
pub mod ReportEffect
pub mod Decoded
pub mod Body
use ranger_ims_server.Prelude.{ℕ, String, Option, none, some, string_eq, ◌==◌}
use ranger_ims_server.Auth.Authorization.{write_incidents, write_incident_reports}
use ranger_ims_server.Auth.Provider.{Settings, Jwt, Request}
use ranger_ims_server.Model.{Incident, IncidentReport}
use ranger_ims_server.Model.Time.{DateTime}
use ranger_ims_server.Codec.Json.{Json}
use ranger_ims_server.Codec.Converter.{Converter}
use ranger_ims_server.Store.Incidents.{create_incident}
use ranger_ims_server.Store.Reports.{create_incident_report}
use ranger_ims_server.Api.Server.{
  Server, Outcome, Reply, invalid_json, numbered, give, stop, call, authorized, author_of, ◌>>=◌,
  ◌>>◌,
}
use Body.{incident_from, report_from, check_report}

-- A test or a conversion that does not use the store
unfoldable pub checked : {A : Type 0} → Outcome A → Server A
checked o c = (o, c)

-- `objectFromJSONBytesIO`, of a body that is JSON or not
unfoldable pub parsed : Option Json → Server Json
parsed none = stop invalid_json
parsed (some json) = give json

module _ (conv : Converter) (jwt : Jwt) (s : Settings) (now : ℕ) (clock stored : DateTime) where
  unfoldable pub file_incident : String → String → Json → Server Reply
  file_incident e author json = do
    i ← checked (incident_from conv e author clock json)
    filed ← call (create_incident i author stored)
    give (numbered filed.number)

  -- The handler and the store each read the clock.
  unfoldable pub new_incident : String → Option Json → Request → Server Reply
  new_incident e body r = do
    r' ← authorized jwt s now (some e) write_incidents r
    json ← parsed body
    author ← author_of r'
    file_incident e author json

  unfoldable pub file_report : String → String → Json → Server Reply
  file_report e author json = do
    report ← checked (report_from conv e author clock json)
    filed ← call (create_incident_report report author stored)
    give (numbered filed.number)

  unfoldable pub new_incident_report : String → Option Json → Request → Server Reply
  new_incident_report e body r = do
    r' ← authorized jwt s now (some e) write_incident_reports r
    json ← parsed body
    checked (check_report e json)
    author ← author_of r'
    file_report e author json
