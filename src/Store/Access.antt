-- ===== src/Store/Access.antt =====
-- store/_db.py: events, their access lists, incident types and streets.
pub mod Effect
pub mod Rights
use ranger_ims_server.Prelude.{String, Bool, true, false, ◌&&◌, List, [], ◌∷◌, if◌then◌else◌}
use ranger_ims_server.Auth.Provider.{AccessLists}
use ranger_ims_server.Store.Values.{Result, ok, err}
use ranger_ims_server.Store.Tables.{Db}
use ranger_ims_server.Store.Statements.Access
use ranger_ims_server.Store.Statements.Access.{
  event_access, clear_event_access_for_mode, clear_event_access_for_expression, add_event_access,
  incident_types_not_hidden, hide_show_incident_type,
}
use ranger_ims_server.Store.Transactions.{
  Txn, Connection, Action, pure, run_interaction, run_query, run_operation, ◌>>=◌, ◌>>◌,
}

unfoldable pub events : Action (List String)
unfolding run_query Access.events
events = run_query Access.events

unfoldable pub create_event : String → Action (Unit {0})
unfolding run_operation Access.create_event
create_event event_id = run_operation (Access.create_event event_id)

-- The loop of `setEventAccess`
unfoldable pub grant_all : String → String → List String → Txn (Unit {0})
grant_all e mode [] = pure tt
grant_all e mode (expression ∷ expressions) = do
  clear_event_access_for_expression e expression
  add_event_access e expression mode
  grant_all e mode expressions

unfoldable pub set_access : String → String → List String → Txn (Unit {0})
set_access e mode expressions = do clear_event_access_for_mode e mode; grant_all e mode expressions

unfoldable pub set_event_access : String → String → List String → Action (Unit {0})
unfolding grant_all set_access
set_event_access e mode expressions = run_interaction (set_access e mode expressions)

unfoldable pub readers : String → Action (List String)
readers e = run_query (event_access e "read")

unfoldable pub writers : String → Action (List String)
writers e = run_query (event_access e "write")

unfoldable pub reporters : String → Action (List String)
reporters e = run_query (event_access e "report")

unfoldable pub set_readers : String → List String → Action (Unit {0})
set_readers e expressions = set_event_access e "read" expressions

unfoldable pub set_writers : String → List String → Action (Unit {0})
set_writers e expressions = set_event_access e "write" expressions

unfoldable pub set_reporters : String → List String → Action (Unit {0})
set_reporters e expressions = set_event_access e "report" expressions

unfoldable pub incident_types : Bool → Action (List String)
incident_types include_hidden =
    run_query (if include_hidden then Access.incident_types else incident_types_not_hidden)

unfoldable pub create_incident_type : String → Bool → Action (Unit {0})
create_incident_type name hidden = run_operation (Access.create_incident_type name hidden)

unfoldable pub hide_show_all : List String → Bool → Txn (Unit {0})
hide_show_all [] hidden = pure tt
hide_show_all (name ∷ names) hidden = do
  hide_show_incident_type name hidden
  hide_show_all names hidden

unfoldable pub show_incident_types : List String → Action (Unit {0})
unfolding hide_show_all
show_incident_types names = run_interaction (hide_show_all names false)

unfoldable pub hide_incident_types : List String → Action (Unit {0})
unfolding hide_show_all
hide_incident_types names = run_interaction (hide_show_all names true)

unfoldable pub concentric_streets : String → Action (List (String × String))
concentric_streets e = run_query (Access.concentric_streets e)

unfoldable pub create_concentric_street : String → String → String → Action (Unit {0})
create_concentric_street e id name = run_operation (Access.create_concentric_street e id name)

listed : Result (List String) → List String
listed (ok xs) = xs
listed (err e) = []

-- The access lists as the authentication provider reads them.
unfoldable pub access_lists : Connection → AccessLists
unfolding listed readers writers reporters
access_lists c = record {
  readers = λ e. listed (readers e c).0;
  writers = λ e. listed (writers e c).0;
  reporters = λ e. listed (reporters e c).0;
}
