-- ===== src/Store/Links/Kept.antt =====
-- Every call of the store's methods keeps the links.
use ranger_ims_server.Prelude.{List}
use ranger_ims_server.Store.Keeps.Tables.{KeptByTables, KeptByStatements_of_KeptByTables}
use ranger_ims_server.Store.Calls.{Call, perform_all, fresh, schema}
use ranger_ims_server.Store.Calls.Invariants.{perform_all-Holds}
use ranger_ims_server.Store.Links.{
  IsLinked, incident_added, incidents_updated, report_added, reports_updated, types_renewed,
}
use ranger_ims_server.Store.Links.Changes.{
  rangers_cleared, types_cleared, ranger-IsLinked, type-IsLinked, incident_entry-IsLinked,
  report_entry-IsLinked,
}

tables-IsLinked : KeptByTables IsLinked
tables-IsLinked = record {
  events = λ db h xs. h;
  access = λ db h rows. h;
  types = types_renewed;
  streets = λ db h rows. h;
  rangers_cleared = rangers_cleared;
  types_cleared = types_cleared;
  ranger_linked = ranger-IsLinked;
  type_linked = type-IsLinked;
  incident_added = incident_added;
  incidents_updated = incidents_updated;
  report_added = report_added;
  reports_updated = reports_updated;
  incident_entry_linked = incident_entry-IsLinked;
  report_entry_linked = report_entry-IsLinked;
}

fresh-IsLinked : IsLinked schema
fresh-IsLinked = record {
  rangers_of = tt;
  types_of = tt;
  types_exist = tt;
  entries_of = tt;
  entries_of_report = tt;
  entries = tt;
  report_entries = tt;
}

-- After any calls of the store's methods on a new database, whether they return or raise, every
-- Ranger, incident type and report entry is linked to an incident that exists, or an entry to an
-- incident report that exists, and every linked incident type and entry exists; in the committed
-- database too.
pub links_after_calls :
    (calls : List Call)
    → IsLinked (perform_all calls fresh).working × IsLinked (perform_all calls fresh).committed
links_after_calls calls =
    let held =
      perform_all-Holds (KeptByStatements_of_KeptByTables tables-IsLinked) calls fresh
        (record { committed = fresh-IsLinked; working = fresh-IsLinked }) in
    (held.working, held.committed)
