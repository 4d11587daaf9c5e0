-- ===== src/Store/Keeps/Tables.antt =====
-- An invariant that each change of a table keeps is kept by every statement.
use mathlib.Core.Path.{subst}
use ranger_ims_server.Prelude.{
  ℕ, String, Bool, ◌≡◌, true, not, List, [], ◌∷◌, ◌++◌, map, any, keep, nat_eq, string_eq,
  any-grown,
}
use ranger_ims_server.Model.{ReportEntry}
use ranger_ims_server.Store.Values.{TimeStamp}
use ranger_ims_server.Store.Tables.{Db, AccessRow, TypeRow, StreetRow, IncidentRow, ReportRow}
use ranger_ims_server.Store.Keeps.{Keeps, Keeps-bind, Keeps-guard, Keeps-modify, keeps_rules}
use ranger_ims_server.Store.Statements.Access
use ranger_ims_server.Store.Statements.Access.{
  clear_event_access_for_mode, clear_event_access_for_expression, add_event_access,
  hide_show_incident_type, set_hidden,
}
use ranger_ims_server.Store.Statements.Incidents
use ranger_ims_server.Store.Statements.Incidents.{
  belongs, refers, is_type, Change, update_incident, attach_ranger_handle_to_incident,
  attach_incident_type_to_incident, clear_incident_rangers, clear_incident_incident_types,
  set_incident_attribute,
}
use ranger_ims_server.Store.Statements.Entries.{is_report}
use ranger_ims_server.Store.Statements.Reports
use ranger_ims_server.Store.Statements.Reports.{
  ReportChange, update_report, set_incident_report_attribute,
}
use ranger_ims_server.Store.Keeps.Rows.{
  ranger_added, type_added, any-set_hidden, attach_ranger-eq-ok, attach_type-eq-ok,
}
use ranger_ims_server.Store.Keeps.Statements.{KeptByStatements}
use ranger_ims_server.Store.Entries.Attached.{
  attached_to_incident, attached_to_report, incident_loop-Keeps, report_loop-Keeps,
}

pub record KeptByTables (P : Db → Type 0) : Type 0 where
  pub events : (db : Db) → P db → (xs : List String) → P (record db { events = xs })
  pub access : (db : Db) → P db → (rows : List AccessRow) → P (record db { access = rows })
  pub types :
      (db : Db)
      → P db
      → (rows : List TypeRow)
      → ((name : String)
          → any (is_type name) db.incident_types ≡ true
          → any (is_type name) rows ≡ true)
      → P (record db { incident_types = rows })
  pub streets : (db : Db) → P db → (rows : List StreetRow) → P (record db { streets = rows })
  pub rangers_cleared :
      (db : Db)
      → P db
      → (e : String) (n : ℕ)
      → P (record db { incident_rangers = keep (λ l. not (belongs e n l)) db.incident_rangers })
  pub types_cleared :
      (db : Db)
      → P db
      → (e : String) (n : ℕ)
      → P (record db {
        incident_incident_types = keep (λ l. not (belongs e n l)) db.incident_incident_types;
      })
  pub ranger_linked :
      (db : Db)
      → P db
      → (e : String) (n : ℕ) (handle : String) → refers e n db ≡ true
      → P (ranger_added e n handle db)
  pub type_linked :
      (db : Db)
      → P db
      → (e : String) (n : ℕ) (name : String) → refers e n db ≡ true
      → any (is_type name) db.incident_types ≡ true
      → P (type_added e n name db)
  pub incident_added :
      (db : Db)
      → P db
      → (row : IncidentRow) → P (record db { incidents = db.incidents ++ row ∷ [] })
  pub incidents_updated :
      (db : Db)
      → P db
      → (change : Change) (e : String) (n : ℕ)
      → P (record db { incidents = map (update_incident change e n) db.incidents })
  pub report_added :
      (db : Db)
      → P db
      → (row : ReportRow) → P (record db { incident_reports = db.incident_reports ++ row ∷ [] })
  pub reports_updated :
      (db : Db)
      → P db
      → (change : ReportChange) (e : String) (n : ℕ)
      → P (record db { incident_reports = map (update_report change e n) db.incident_reports })
  pub incident_entry_linked :
      (db : Db)
      → P db
      → (e : String) (n : ℕ) (entry : ReportEntry) (created : TimeStamp) → refers e n db ≡ true
      → P (attached_to_incident e n entry created db)
  pub report_entry_linked :
      (db : Db)
      → P db
      → (e : String) (n : ℕ) (entry : ReportEntry) (created : TimeStamp)
      → any (is_report e n) db.incident_reports ≡ true
      → P (attached_to_report e n entry created db)

module _ {P : Db → Type 0} (k : KeptByTables P) where
  open k use {
    events, access, types, streets, rangers_cleared, types_cleared, incident_added,
    incidents_updated, report_added, reports_updated,
  }

  event-Keeps : (e : String) → Keeps P (Access.create_event e)
  unfolding Access.create_event
  event-Keeps e = search (keeps_rules, events)

  clear_mode-Keeps : (e mode : String) → Keeps P (clear_event_access_for_mode e mode)
  unfolding clear_event_access_for_mode
  clear_mode-Keeps e mode = search (keeps_rules, access)

  clear_expression-Keeps : (e x : String) → Keeps P (clear_event_access_for_expression e x)
  unfolding clear_event_access_for_expression
  clear_expression-Keeps e x = search (keeps_rules, access)

  add_access-Keeps : (e x mode : String) → Keeps P (add_event_access e x mode)
  unfolding add_event_access
  add_access-Keeps e x mode = search (keeps_rules, access) depth 8

  street-Keeps : (e id name : String) → Keeps P (Access.create_concentric_street e id name)
  unfolding Access.create_concentric_street
  street-Keeps e id name = search (keeps_rules, streets) depth 8

  type_grown :
      (db : Db)
      → P db
      → (row : TypeRow) → P (record db { incident_types = db.incident_types ++ row ∷ [] })
  type_grown db h row = types db h _ (λ n. any-grown (is_type n) db.incident_types (row ∷ []))

  type-Keeps : (name : String) (hidden : Bool) → Keeps P (Access.create_incident_type name hidden)
  unfolding Access.create_incident_type
  type-Keeps name hidden = search (keeps_rules, type_grown)

  hide_show-Keeps : (name : String) (hidden : Bool) → Keeps P (hide_show_incident_type name hidden)
  unfolding hide_show_incident_type
  hide_show-Keeps name hidden = Keeps-modify _ (λ db h. types db h _ (λ n k. rw any-set_hidden k))

  attach_ranger-Keeps :
      (e : String) (n : ℕ) (handle : String) → Keeps P (attach_ranger_handle_to_incident e n handle)
  attach_ranger-Keeps e n handle = record {
    at = λ db h r done.
        let (known, now) = attach_ranger-eq-ok e n db r handle done in
        subst P now (k.ranger_linked db h e n handle known);
  }

  attach_type-Keeps :
      (e : String) (n : ℕ) (name : String) → Keeps P (attach_incident_type_to_incident e n name)
  attach_type-Keeps e n name = record {
    at = λ db h r done.
        let (known, typed, now) = attach_type-eq-ok e n db r name done in
        subst P now (k.type_linked db h e n name known typed);
  }

  clear_rangers-Keeps : (e : String) (n : ℕ) → Keeps P (clear_incident_rangers e n)
  unfolding clear_incident_rangers
  clear_rangers-Keeps e n =
      Keeps-bind _ _ (Keeps-guard _ _) (λ _. Keeps-modify _ (λ db h. rangers_cleared db h e n))

  clear_types-Keeps : (e : String) (n : ℕ) → Keeps P (clear_incident_incident_types e n)
  unfolding clear_incident_incident_types
  clear_types-Keeps e n =
      Keeps-bind _ _ (Keeps-guard _ _) (λ _. Keeps-modify _ (λ db h. types_cleared db h e n))

  set_attribute-Keeps :
      (e : String) (n : ℕ) (change : Change) → Keeps P (set_incident_attribute change e n)
  unfolding set_incident_attribute
  set_attribute-Keeps e n change = search (keeps_rules, incidents_updated)

  set_report-Keeps :
      (e : String) (n : ℕ) (change : ReportChange)
      → Keeps P (set_incident_report_attribute change e n)
  unfolding set_incident_report_attribute
  set_report-Keeps e n change = search (keeps_rules, reports_updated)

  insert_incident-Keeps : (row : IncidentRow) → Keeps P (Incidents.create_incident row)
  unfolding Incidents.create_incident
  insert_incident-Keeps row = search (keeps_rules, incident_added) depth 9

  insert_report-Keeps : (row : ReportRow) → Keeps P (Reports.create_incident_report row)
  unfolding Reports.create_incident_report
  insert_report-Keeps row = search (keeps_rules, report_added) depth 9

  pub KeptByStatements_of_KeptByTables : KeptByStatements P
  KeptByStatements_of_KeptByTables = record {
    create_event = event-Keeps;
    clear_mode = clear_mode-Keeps;
    clear_expression = clear_expression-Keeps;
    add_access = add_access-Keeps;
    create_street = street-Keeps;
    create_type = type-Keeps;
    hide_show = hide_show-Keeps;
    attach_ranger = attach_ranger-Keeps;
    attach_type = attach_type-Keeps;
    clear_rangers = clear_rangers-Keeps;
    clear_types = clear_types-Keeps;
    set_attribute = set_attribute-Keeps;
    set_report = set_report-Keeps;
    insert_incident = insert_incident-Keeps;
    insert_report = insert_report-Keeps;
    incident_entries = λ e n.
        incident_loop-Keeps e n
          (λ entry created db known h. k.incident_entry_linked db h e n entry created known);
    report_entries = λ e n.
        report_loop-Keeps e n
          (λ entry created db known h. k.report_entry_linked db h e n entry created known);
  }
