-- ===== src/Store/Incidents/Returned.antt =====
-- What `createIncident` and `createIncidentReport` return where they do not raise.
use ranger_ims_server.Prelude.{String, ◌≡◌, arith, inl, inr, string_eq, nat_eq, ◌++◌}
use ranger_ims_server.Model.{Incident, sort_entries}
use ranger_ims_server.Model.Time.{DateTime}
use ranger_ims_server.Store.Values.{ok}
use ranger_ims_server.Store.Tables.{Db}
use ranger_ims_server.Store.Transactions.{Txn, Connection, run_interaction}
use ranger_ims_server.Store.Statements.Incidents.{max_incident_number, maximum, numbers}
use ranger_ims_server.Store.Entries.{initial_report_entries}
use ranger_ims_server.Store.Incidents.{
  write_incident, next_incident_number, number_and_write, create_incident,
}
use ranger_ims_server.Store.Keeps.{Result-cases}
use ranger_ims_server.Store.Numbers.{next_number}
use ranger_ims_server.Store.Incidents.Created.{filed}

write_incident-same : (i f : Incident) (db later : Db) → write_incident i db ≡ ok (f, later) → f ≡ i
unfolding write_incident
write_incident-same i f db later h = ground arith

number_and_write-same :
    (i f : Incident) (db later : Db)
    → number_and_write i db ≡ ok (f, later)
    → f ≡ record i { number = next_number (maximum (numbers i.event_id db.incidents)) }
unfolding number_and_write next_incident_number max_incident_number
number_and_write-same i f db later h = write_incident-same _ f db later h

-- A transaction that is settled with a result ended with it.
pub run_interaction-ok :
    {A : Type 0} (m : Txn A) (a : A) (c c' : Connection)
    → run_interaction m c ≡ (ok a, c')
    → (db : Db) × (m c.working ≡ ok (a, db))
unfolding run_interaction
run_interaction-ok m a c c' h = elim (Result-cases (m c.working)) [
  | inl (e, fails) ↦ ground (arith, fails)
  | inr ((b, db), ends) ↦ (db, ground (arith, ends))
]

abbrev with_initial : Incident → String → DateTime → Incident
with_initial i author now = record i {
  report_entries = sort_entries (initial_report_entries i author now ++ i.report_entries);
}

create_incident-runs :
    (i f : Incident) (author : String) (now : DateTime) (c c' : Connection)
    → create_incident i author now c ≡ (ok f, c')
    → run_interaction (number_and_write (with_initial i author now)) c ≡ (ok f, c')
unfolding create_incident
create_incident-runs i f author now c c' h = ground arith

pub create_incident-filed :
    (i f : Incident) (author : String) (now : DateTime) (c c' : Connection)
    → create_incident i author now c ≡ (ok f, c')
    → f ≡ filed i author now c.working
create_incident-filed i f author now c c' h =
    let (db, ends) = run_interaction-ok _ f c c' (create_incident-runs i f author now c c' h) in
    number_and_write-same (with_initial i author now) f c.working db ends
