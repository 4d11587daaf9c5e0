-- ===== src/Store/Entries/Stamped.antt =====
-- The times of the entries that the store makes, and those of a sorted list, are good for a row; the
-- texts of those entries are not empty.
use ranger_ims_server.Prelude.{String, ◌≡◌, ◌≢◌, List, All}
use ranger_ims_server.Text.Prefix.{cons-append-ne-nil}
use ranger_ims_server.Model.{ReportEntry, Incident, sort_entries}
use ranger_ims_server.Model.Time.{DateTime, normalize}
use ranger_ims_server.Model.Build.Sorting.{sort_entries-All}
use ranger_ims_server.Store.Values.{ok, TimeStamp, as_date_time_value}
use ranger_ims_server.Store.Entries.{automatic_report_entry, initial_report_entries}
use ranger_ims_server.Store.Entries.Initial.{initial-All}

-- The time does not lie before the epoch.
abbrev pub IsStamped : DateTime → Type 0
IsStamped t = (created : TimeStamp) × (as_date_time_value t ≡ ok created)

abbrev pub AreStamped : List ReportEntry → Type 0
AreStamped entries = All (λ (entry : ReportEntry). IsStamped entry.created) entries

pub sort-AreStamped : (xs : List ReportEntry) → AreStamped xs → AreStamped (sort_entries xs)
sort-AreStamped xs k = sort_entries-All (λ (entry : ReportEntry). IsStamped entry.created) xs k

pub initial-AreStamped :
    (i : Incident) (author : String) (now : DateTime)
    → IsStamped (normalize now)
    → AreStamped (initial_report_entries i author now)
unfolding automatic_report_entry
initial-AreStamped i author now h =
    initial-All (λ (entry : ReportEntry). IsStamped entry.created) i author now
      (λ attribute value. h)

abbrev pub HasText : ReportEntry → Type 0
HasText entry = entry.text ≢ ""

pub initial-HasText :
    (i : Incident) (author : String) (now : DateTime)
    → All HasText (initial_report_entries i author now)
unfolding automatic_report_entry
initial-HasText i author now =
    initial-All HasText i author now (λ attribute value. cons-append-ne-nil _ _ _)
