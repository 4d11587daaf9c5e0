-- ===== src/Web/Guarded.antt =====
-- Which pages are shown to whom.
use ranger_ims_server.Prelude.{
  ℕ, String, ◌≡◌, ap, Bool, true, false, ◌||◌, Option, none, some, arith, if◌then◌else◌,
}
use ranger_ims_server.Auth.Authorization.{
  Authorization, ims_admin, read_incidents, write_incidents, write_incident_reports, meets,
}
use ranger_ims_server.Auth.Acl.{ImsUser}
use ranger_ims_server.Auth.Provider.{Settings, Jwt, Request, authorizations_for_user}
use ranger_ims_server.Auth.Provider.Requests.{ComesFrom}
use ranger_ims_server.Store.Transactions.{Connection}
use ranger_ims_server.Store.Access.{access_lists}
use ranger_ims_server.Api.Server.{Server, Outcome, value, give, authorized, ◌>>=◌}
use ranger_ims_server.Api.Server.Sequences.{>>=-eq-value, authorized-gives}
use ranger_ims_server.Api.Reading.{reports_access}
use ranger_ims_server.Api.Confidential.{access_lem}
use ranger_ims_server.Web.{
  new_one, no_number, number, Visit, root, admin, admin_events, admin_incident_types, admin_streets,
  incidents_template, incident_template, incident_reports_template, incident_report_template, event,
  incidents, incident_reports, incident, incident_report, Page, admin_only, view_incident,
  view_incident_report, view_incident_reports, relative, visit, incident_page, incident_report_page,
  incidents_page, incident_reports_page, admin_page, admin_events_page, admin_incident_types_page,
  admin_streets_page,
}

-- The pages that ask for a right of the user's: neither the home page nor the templates, which are
-- shown to all; apart from that of one incident report, which asks for
-- a right to the report
abbrev pub is_guarded : Visit → Bool
is_guarded root = false
is_guarded incidents_template = false
is_guarded incident_template = false
is_guarded incident_reports_template = false
is_guarded incident_report_template = false
is_guarded (incident_report e (number n)) = false
is_guarded v = true

module _ (s : Settings) (c : Connection) (u : ImsUser) where
  abbrev has : Authorization → Option String → Bool
  has required e = meets required (authorizations_for_user s (access_lists c) (some u) e)

  -- Whether the user has the rights that a page asks for
  abbrev pub may_visit : Visit → Bool
  may_visit root = true
  may_visit incidents_template = true
  may_visit incident_template = true
  may_visit incident_reports_template = true
  may_visit incident_report_template = true
  may_visit admin = has ims_admin none
  may_visit admin_events = has ims_admin none
  may_visit admin_incident_types = has ims_admin none
  may_visit admin_streets = has ims_admin none
  may_visit (event e) = has read_incidents (some e) || has write_incident_reports (some e)
  may_visit (incidents e) = has read_incidents (some e)
  may_visit (incident_reports e) =
      has read_incidents (some e) || has write_incident_reports (some e)
  may_visit (incident e new_one) = has write_incidents (some e)
  may_visit (incident e n) = has read_incidents (some e)
  may_visit (incident_report e new_one) = has write_incident_reports (some e)
  may_visit (incident_report e n) = true

either :
    (own : Bool) (a b rights : Authorization)
    → meets (if own then b else a) rights ≡ true
    → (meets a rights || meets b rights) ≡ true
either true a b rights h = ground arith
either false a b rights h = ground arith

module _ (jwt : Jwt) (s : Settings) (now : ℕ) where
  -- The request comes from a user for whom a test holds.
  abbrev pub Guarded : Request → (ImsUser → Bool) → Type 0
  Guarded r test = (u : ImsUser) × ComesFrom jwt now r u × (test u ≡ true)

  only-Guarded :
      (e : Option String) (required : Authorization) (next : Request → Server Page) (r : Request)
      (c : Connection) (page : Page)
      → ((authorized jwt s now e required r >>= next) c).0 ≡ value page
      → Guarded r (λ u. meets required (authorizations_for_user s (access_lists c) (some u) e))
  only-Guarded e required next r c page h =
      let (r', gives, _) = >>=-eq-value (authorized jwt s now e required r) next c page h in
      let (_, (u, from, rights, _)) = authorized-gives jwt s now e required r c r' _ gives in
      (u, from, rights)

  either-Guarded :
      (e : String) (next : Request × Bool → Server Page) (r : Request) (c : Connection)
      (page : Page)
      → ((reports_access jwt s now e r >>= next) c).0 ≡ value page
      → Guarded r (λ u.
        meets read_incidents (authorizations_for_user s (access_lists c) (some u) (some e))
        || meets write_incident_reports
            (authorizations_for_user s (access_lists c) (some u) (some e)))
  either-Guarded e next r c page h =
      let ((r', own), gives, _) = >>=-eq-value (reports_access jwt s now e r) next c page h in
      let (_, (u, (from, _, rights))) =
        access_lem jwt s now e r c r' own
          (ap (λ (o : Outcome (Request × Bool) × Connection). o.0) gives) in
      (
        u,
        from,
        either own read_incidents write_incident_reports
            (authorizations_for_user s (access_lists c) (some u) (some e)) rights,
      )

-- A page other than the home page, the four template pages and that of one incident report is shown
-- only to a user who has, by the access lists as they are, the right that it asks for.
pub pages_are_guarded :
    (jwt : Jwt) (s : Settings) (now : ℕ) (v : Visit) (r : Request) (c : Connection) (page : Page)
    → is_guarded v ≡ true
    → (visit jwt s now v r c).0 ≡ value page
    → (u : ImsUser) × ComesFrom jwt now r u × (may_visit s c u v ≡ true)
unfolding visit admin_only view_incident view_incident_report view_incident_reports
pages_are_guarded jwt s now root r c page g h = cc
pages_are_guarded jwt s now admin r c page g h =
    only-Guarded jwt s now none ims_admin (λ r'. give admin_page) r c page h
pages_are_guarded jwt s now admin_events r c page g h =
    only-Guarded jwt s now none ims_admin (λ r'. give admin_events_page) r c page h
pages_are_guarded jwt s now admin_incident_types r c page g h =
    only-Guarded jwt s now none ims_admin (λ r'. give admin_incident_types_page) r c page h
pages_are_guarded jwt s now admin_streets r c page g h =
    only-Guarded jwt s now none ims_admin (λ r'. give admin_streets_page) r c page h
pages_are_guarded jwt s now incidents_template r c page g h = cc
pages_are_guarded jwt s now incident_template r c page g h = cc
pages_are_guarded jwt s now incident_reports_template r c page g h = cc
pages_are_guarded jwt s now incident_report_template r c page g h = cc
pages_are_guarded jwt s now (event e) r c page g h =
    either-Guarded jwt s now e (relative jwt s now) r c page h
pages_are_guarded jwt s now (incidents e) r c page g h =
    only-Guarded jwt s now (some e) read_incidents (λ r'. give (incidents_page e)) r c page h
pages_are_guarded jwt s now (incident_reports e) r c page g h =
    either-Guarded jwt s now e (λ r'. give (incident_reports_page e)) r c page h
pages_are_guarded jwt s now (incident e new_one) r c page g h =
    only-Guarded jwt s now (some e) write_incidents (λ r'. give (incident_page e none)) r c page h
pages_are_guarded jwt s now (incident e no_number) r c page g h = cc
pages_are_guarded jwt s now (incident e (number n)) r c page g h =
    only-Guarded jwt s now (some e) read_incidents (λ r'. give (incident_page e (some n))) r c page
      h
pages_are_guarded jwt s now (incident_report e new_one) r c page g h =
    only-Guarded jwt s now (some e) write_incident_reports
      (λ r'. give (incident_report_page e none)) r c page h
pages_are_guarded jwt s now (incident_report e no_number) r c page g h = cc
pages_are_guarded jwt s now (incident_report e (number n)) r c page g h = cc
