-- ===== src/Store/Audit.antt =====
-- No method of the store leaves a report entry detached.
use ranger_ims_server.Prelude.{String, Bool, ◌≡◌, refl, false, List, [], ◌∷◌, All, keep}
use ranger_ims_server.Store.Tables.{Db, AccessRow, TypeRow, StreetRow, IncidentRow, ReportRow, Link}
use ranger_ims_server.Store.Transactions.{Connection, run_interaction}
use ranger_ims_server.Store.Keeps.Tables.{KeptByTables, KeptByStatements_of_KeptByTables}
use ranger_ims_server.Store.Values.{ok}
use ranger_ims_server.Store.Statements.Entries.{detached_report_entries}
use ranger_ims_server.Store.Fetch.{validate, detached_entries, fetch_detached}
use ranger_ims_server.Store.Calls.{Call, perform_all, fresh}
use ranger_ims_server.Store.Calls.Invariants.{perform_all-Holds}
use ranger_ims_server.Store.Entries.Attached.{IsAttached, added_to_incident, added_to_report}

-- A change of another table
module _ (db : Db) (h : IsAttached db) where
  events_kept : (xs : List String) → IsAttached (record db { events = xs })
  events_kept xs = record { attached = h.attached }

  access_kept : (rows : List AccessRow) → IsAttached (record db { access = rows })
  access_kept rows = record { attached = h.attached }

  types_kept : (rows : List TypeRow) → IsAttached (record db { incident_types = rows })
  types_kept rows = record { attached = h.attached }

  streets_kept : (rows : List StreetRow) → IsAttached (record db { streets = rows })
  streets_kept rows = record { attached = h.attached }

  incidents_kept : (rows : List IncidentRow) → IsAttached (record db { incidents = rows })
  incidents_kept rows = record { attached = h.attached }

  rangers_kept : (rows : List (Link String)) → IsAttached (record db { incident_rangers = rows })
  rangers_kept rows = record { attached = h.attached }

  incident_types_kept :
      (rows : List (Link String)) → IsAttached (record db { incident_incident_types = rows })
  incident_types_kept rows = record { attached = h.attached }

  reports_kept : (rows : List ReportRow) → IsAttached (record db { incident_reports = rows })
  reports_kept rows = record { attached = h.attached }

tables-IsAttached : KeptByTables IsAttached
tables-IsAttached = record {
  events = events_kept;
  access = access_kept;
  types = λ db h rows _. types_kept db h rows;
  streets = streets_kept;
  rangers_cleared = λ db h e n. rangers_kept db h _;
  types_cleared = λ db h e n. incident_types_kept db h _;
  ranger_linked = λ db h e n handle _. rangers_kept db h _;
  type_linked = λ db h e n name _ _. incident_types_kept db h _;
  incident_added = λ db h row. incidents_kept db h _;
  incidents_updated = λ db h change e n. incidents_kept db h _;
  report_added = λ db h row. reports_kept db h _;
  reports_updated = λ db h change e n. reports_kept db h _;
  incident_entry_linked = λ db h e n entry created _. added_to_incident e n entry created db h;
  report_entry_linked = λ db h e n entry created _. added_to_report e n entry created db h;
}

keep-none : {A : Type 0} (p : A → Bool) (xs : List A) → All (λ x. p x ≡ false) xs → keep p xs ≡ []
keep-none p [] h = refl
keep-none p (x ∷ xs) h = rw h.0 (keep-none p xs h.1)

validate-IsAttached : (c : Connection) → IsAttached c.working → (validate c).0 ≡ ok tt
unfolding validate detached_entries fetch_detached detached_report_entries run_interaction
validate-IsAttached c h = rw (keep-none _ c.working.report_entries h.attached)

-- After any calls of the store's methods on a new database, whether they return or raise, no report
-- entry is detached: the store's validation passes.
pub validate_after_calls : (calls : List Call) → (validate (perform_all calls fresh)).0 ≡ ok tt
validate_after_calls calls =
    validate-IsAttached (perform_all calls fresh)
      (perform_all-Holds (KeptByStatements_of_KeptByTables tables-IsAttached) calls fresh (record {
        committed = record { attached = tt };
        working = record { attached = tt };
      })).working
