-- ===== src/Tests/Web.antt =====
-- A form that logs a user in, and the pages that the user visits.
use ranger_ims_server.Store.Statements.Access.{event_access}
use ranger_ims_server.Store.Transactions.{run_query}
use ranger_ims_server.Store.Access.{access_lists}
use ranger_ims_server.Auth.Acl.{match_acl, ImsUser}
use ranger_ims_server.Auth.Provider.{
  event_rights, authorizations_for_user, user_from_bearer_authorization, check_authentication,
  authenticate_request, authorize_request, verify_password, Request,
}
use ranger_ims_server.Api.Server.{authorized, value}
use ranger_ims_server.Prelude.{
  String, ◌≡◌, refl, Bool, true, Option, none, some, [], ◌∷◌, string_eq, ◌==◌, if◌then◌else◌,
}
use ranger_ims_server.Auth.Provider.Requests.{ComesFrom}
use ranger_ims_server.Directory.{Answer, answer}
use ranger_ims_server.Api.Listing.{query_value}
use ranger_ims_server.Web.{Form, moved, login_submit, incidents, incidents_page, visit}
use ranger_ims_server.Web.Session.{IsLogin, next_request, form_opens_session}
use ranger_ims_server.Web.Guarded.{may_visit, pages_are_guarded}
use ranger_ims_server.Tests.Api.{jwt, settings, tool, request, connection}

abbrev directory : String → Answer (Option ImsUser)
directory name = answer (if name == "Tool" then some tool else none)

abbrev takes : ImsUser → String → Bool
takes user password = password == "password"

abbrev form : Form
form = record { username = "Tool" ∷ []; password = "password" ∷ []; origin = [] }

abbrev stranger : Request
stranger = record request { session_user = none }

submitted : login_submit jwt settings directory takes 100 form stranger ≡ (moved none, request)
unfolding login_submit string_eq query_value verify_password visit authorized authorize_request
    authenticate_request check_authentication user_from_bearer_authorization authorizations_for_user
    event_rights match_acl access_lists run_query event_access
submitted = refl

form_opens_session_example :
    (user : ImsUser) × IsLogin settings directory takes form user
    × (none ≡ query_value form.origin)
    × ComesFrom jwt 150 (next_request request) user
form_opens_session_example =
    form_opens_session jwt settings directory takes 100 150 form stranger request none submitted

shown :
    (visit jwt settings 150 (incidents "2019") request connection).0 ≡ value (incidents_page "2019")
unfolding visit string_eq authorized authorize_request authenticate_request check_authentication
    user_from_bearer_authorization authorizations_for_user event_rights match_acl access_lists
    run_query event_access
shown = refl

pages_are_guarded_example :
    (u : ImsUser) × ComesFrom jwt 150 request u
    × (may_visit settings connection u (incidents "2019") ≡ true)
pages_are_guarded_example =
    pages_are_guarded jwt settings 150 (incidents "2019") request connection (incidents_page "2019")
      refl shown
