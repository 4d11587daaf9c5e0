-- ===== src/Store/Rollback.antt =====
-- What a failed call takes away: everything since the last commit, and a single statement does not
-- commit.
use ranger_ims_server.Prelude.{ℕ, String, ◌≡◌, ap, ◌∙◌, arith}
use ranger_ims_server.Model.Time.{DateTime}
use ranger_ims_server.Store.Values.{Error, ok, err}
use ranger_ims_server.Store.Tables.{Db}
use ranger_ims_server.Store.Transactions.{
  Txn, Connection, run_interaction, run_query, run_operation, disconnect,
}
use ranger_ims_server.Store.Statements.Access
use ranger_ims_server.Store.Statements.Incidents.{Change}
use ranger_ims_server.Store.Access.{create_event, events}
use ranger_ims_server.Store.Incidents.{set_attribute, change_incident, change_entry}

module _ {A : Type 0} (m : Txn A) (c : Connection) where
  failed-committed :
      (x : Error)
      → (run_interaction m c).0 ≡ err x
      → (run_interaction m c).1 ≡ record { committed = c.committed; working = c.committed }
  unfolding run_interaction
  failed-committed x h = ground arith

create_event-committed :
    (e : String) (c : Connection) → (create_event e c).1.committed ≡ c.committed
unfolding create_event run_operation run_query
create_event-committed e c = ground arith

-- An event that has been created is gone again if the next call to set an attribute of an incident
-- fails: the events are those of the last commit. It is gone, too, if the connection is closed.
pub created_event_lost :
    (e : String) (c : Connection) (change : Change) (f : String) (n : ℕ) (author : String)
    (now : DateTime) (x : Error)
    → (create_event e c).0 ≡ ok tt
    → (set_attribute change f n author now (create_event e c).1).0 ≡ err x
    → ((events (set_attribute change f n author now (create_event e c).1).1).0
        ≡ ok c.committed.events)
      × ((events (disconnect (create_event e c).1)).0 ≡ ok c.committed.events)
unfolding set_attribute events run_query Access.events disconnect
created_event_lost e c change f n author now x made failed = (
  ap (λ (d : Connection). (events d).0)
        (failed-committed (change_incident change f n (change_entry change author now))
          (create_event e c).1 x failed)
      ∙ ap (λ (db : Db). ok db.events) (create_event-committed e c),
  ap (λ (db : Db). ok db.events) (create_event-committed e c),
)
