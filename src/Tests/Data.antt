-- ===== src/Tests/Data.antt =====
-- A database with one incident.
use ranger_ims_server.Prelude.{◌≡◌, refl, true, false, none, some, [], ◌∷◌, nat_eq, string_eq}
use ranger_ims_server.Model.{ReportEntry, Incident, rod_garett, new, normal}
use ranger_ims_server.Model.Time.{DateTime, pos, normalize}
use ranger_ims_server.Store.Values.{ok, TimeStamp, as_date_time_value}
use ranger_ims_server.Store.Tables.{Db, IncidentRow}
use ranger_ims_server.Store.Transactions.{Connection}
use ranger_ims_server.Store.Statements.Incidents.{fits, fits_value, refers, summary}
use ranger_ims_server.Store.Links.{IsLinked}
use ranger_ims_server.Store.Calls.{schema}

abbrev pub noon : DateTime
noon = record { second = pos 1566979200; microsecond = 120000 }

abbrev pub stamp : TimeStamp
stamp = record { second = 1566979200; microsecond = 120000 }

abbrev pub row : IncidentRow
row = record {
  event = "2019";
  number = 1;
  created = stamp;
  priority = 3;
  state = "new";
  summary = some "Lost child";
  location_name = none;
  location_concentric = none;
  location_radial_hour = none;
  location_radial_minute = none;
  location_description = none;
}

abbrev pub db : Db
db = record schema { events = "2019" ∷ []; incidents = row ∷ [] }

abbrev pub connection : Connection
connection = record { committed = db; working = db }

pub linked : IsLinked db
linked = record {
  rangers_of = tt;
  types_of = tt;
  types_exist = tt;
  entries_of = tt;
  entries_of_report = tt;
  entries = tt;
  report_entries = tt;
}

pub one_fits : fits 1 ≡ true
unfolding fits
one_fits = refl

pub two_fits : fits 2 ≡ true
unfolding fits
two_fits = refl

pub small : fits_value (summary none) ≡ true
unfolding fits_value
small = refl

pub one_known : refers "2019" 1 db ≡ true
unfolding string_eq nat_eq
one_known = refl

pub clock : as_date_time_value (normalize noon) ≡ ok stamp
unfolding as_date_time_value normalize nat_eq
clock = refl

abbrev pub incident : Incident
incident = record {
  event_id = "2019";
  number = 1;
  created = noon;
  state = new;
  priority = normal;
  summary = some "Lost child";
  location = record { name = none; address = rod_garett none none none none };
  ranger_handles = [];
  incident_types = [];
  report_entries = [];
  incident_report_numbers = [];
}

abbrev pub typed : ReportEntry
typed = record { created = noon; author = "Bucket"; automatic = false; text = "Found" }
