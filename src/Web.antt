-- ===== src/Web.antt =====
-- application/_auth.py and _web.py: the login form and the session, and the pages of the application. A
-- page is named, not rendered.
pub mod Session
pub mod Guarded
use ranger_ims_server.Prelude.{
  ℕ, String, Bool, true, false, Option, none, some, List, map, if◌then◌else◌,
}
use ranger_ims_server.Auth.Authorization.{
  ims_admin, read_incidents, write_incidents, write_incident_reports,
}
use ranger_ims_server.Auth.Claims
use ranger_ims_server.Auth.Claims.{AuthError}
use ranger_ims_server.Auth.Acl.{ImsUser}
use ranger_ims_server.Auth.Provider.{
  Settings, Jwt, Request, check_authentication, authorize_request_for_incident_report,
  verify_password,
}
use ranger_ims_server.Directory.{Answer, answer, directory_error, other_error}
use ranger_ims_server.Model.{IncidentReport, ReportEntry}
use ranger_ims_server.Store.Values.{Result, ok, err, no_such_incident_report}
use ranger_ims_server.Store.Transactions.{Action}
use ranger_ims_server.Store.Access.{access_lists}
use ranger_ims_server.Store.Fetch.{incident_report_with_number}
use ranger_ims_server.Api.Server.{
  Server, Outcome, value, reply, raised, refused, failed, not_found, give, stop, throw, authorized,
  ◌>>=◌,
}
use ranger_ims_server.Api.Reading.{reports_access}
use ranger_ims_server.Api.Listing.{query_value}

-- The values of the fields of a form that has been sent
pub record Form : Type 0 where
  pub username : List String
  pub password : List String
  pub origin : List String

-- `moved` tells where the browser is sent: to the home page, if there is no origin.
pub data Submitted : Type 0 where
  moved : Option String → Submitted
  login_failed : Submitted
  raised_refused : AuthError → Submitted
  raised_directory raised_other : Submitted

unfoldable pub or_default : String → Option String → String
or_default default none = default
or_default default (some s) = s

-- `check` is the directory's own check of a password.
module _ (jwt : Jwt) (s : Settings) (lookup : String → Answer (Option ImsUser))
    (check : ImsUser → String → Bool) (now : ℕ) where
  failed_page : Claims.Result (Unit {0}) × Request → Submitted × Request
  failed_page (Claims.Result.ok _, r) = (login_failed, r)
  failed_page (Claims.Result.err f, r) = (raised_refused f, r)

  -- `self.login(request, failed=True)`
  again : Request → Submitted × Request
  unfolding failed_page
  again r = failed_page (check_authentication jwt now r)

  log_in : Form → Answer (Option ImsUser) → Request → Submitted × Request
  unfolding again or_default
  log_in form directory_error r = (raised_directory, r)
  log_in form other_error r = (raised_other, r)
  log_in form (answer none) r = again r
  log_in form (answer (some user)) r =
      elim (verify_password s check user (or_default "" (query_value form.password))) [
        | true ↦ (moved (query_value form.origin), record r { session_user = some user })
        | false ↦ again r
      ]

  user_named : Option String → Answer (Option ImsUser)
  user_named none = answer none
  user_named (some username) = lookup username

  -- `loginSubmit`; what is left in the request's session is there for the next request.
  unfoldable pub login_submit : Form → Request → Submitted × Request
  unfolding log_in user_named
  login_submit form r = log_in form (user_named (query_value form.username)) r

-- `logout`: the session ends.
unfoldable pub logout : Request → Submitted × Request
logout r = (moved none, record r { session_user = none })

-- The number in a path
pub data Number : Type 0 where
  new_one no_number : Number
  number : ℕ → Number

pub data Visit : Type 0 where
  root admin admin_events admin_incident_types admin_streets : Visit
  incidents_template incident_template incident_reports_template incident_report_template : Visit
  event incidents incident_reports : String → Visit
  incident incident_report : String → Number → Visit

pub data Page : Type 0 where
  root_page admin_page admin_events_page admin_incident_types_page admin_streets_page : Page
  to_incidents to_incident_reports : Page
  incidents_template_page incident_template_page : Page
  incident_reports_template_page incident_report_template_page : Page
  incidents_page incident_reports_page : String → Page
  incident_page incident_report_page : String → Option ℕ → Page

module _ (jwt : Jwt) (s : Settings) (now : ℕ) where
  -- The incidents of an event, or its incident reports for one who may only write these
  relative : Request × Bool → Server Page
  relative (r, limited) = give (if limited then to_incident_reports else to_incidents)

  unfoldable pub view_incident : String → Number → Request → Server Page
  view_incident e new_one r = do
    r' ← authorized jwt s now (some e) write_incidents r
    give (incident_page e none)
  view_incident e no_number r = stop not_found
  view_incident e (number n) r = do
    r' ← authorized jwt s now (some e) read_incidents r
    give (incident_page e (some n))

  seen : String → ℕ → Claims.Result (Unit {0}) × Request → Server Page
  seen e n (Claims.Result.ok _, r) = give (incident_report_page e (some n))
  seen e n (Claims.Result.err f, r) = throw (refused f)

  -- `except NoSuchIncidentReportError`
  report_page : String → ℕ → Request → Result IncidentReport → Server Page
  unfolding seen
  report_page e n r (ok report) c =
      seen e n
        (authorize_request_for_incident_report jwt s (access_lists c) now report.event_id
          (map (λ (entry : ReportEntry). entry.author) report.report_entries) r)
        c
  report_page e n r (err no_such_incident_report) c =
      (authorized jwt s now (some e) read_incidents r >>= λ r'. stop not_found) c
  report_page e n r (err f) c = (raised (failed f), c)

  numbered_report : String → ℕ → Request → Server Page
  unfolding report_page
  numbered_report e n r c =
      report_page e n r (incident_report_with_number e n c).0 (incident_report_with_number e n c).1

  unfoldable pub view_incident_report : String → Number → Request → Server Page
  unfolding numbered_report
  view_incident_report e new_one r = do
    r' ← authorized jwt s now (some e) write_incident_reports r
    give (incident_report_page e none)
  view_incident_report e no_number r = stop not_found
  view_incident_report e (number n) r = numbered_report e n r

  unfoldable pub view_incident_reports : String → Request → Server Page
  view_incident_reports e r = do r' ← reports_access jwt s now e r; give (incident_reports_page e)

  unfoldable pub admin_only : Page → Request → Server Page
  admin_only page r = do r' ← authorized jwt s now none ims_admin r; give page

  unfoldable pub visit : Visit → Request → Server Page
  unfolding relative
  visit root r = give root_page
  visit admin r = admin_only admin_page r
  visit admin_events r = admin_only admin_events_page r
  visit admin_incident_types r = admin_only admin_incident_types_page r
  visit admin_streets r = admin_only admin_streets_page r
  visit incidents_template r = give incidents_template_page
  visit incident_template r = give incident_template_page
  visit incident_reports_template r = give incident_reports_template_page
  visit incident_report_template r = give incident_report_template_page
  visit (event e) r = reports_access jwt s now e r >>= relative
  visit (incidents e) r = do
    r' ← authorized jwt s now (some e) read_incidents r
    give (incidents_page e)
  visit (incident_reports e) r = view_incident_reports e r
  visit (incident e n) r = view_incident e n r
  visit (incident_report e n) r = view_incident_report e n r
