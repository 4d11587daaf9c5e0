-- ===== src/Model/Build.antt =====
-- model/_incident.py, model/_report.py, model/_entry.py: what the classes' converters make of the values
-- that an object is built from.
pub mod Sorting
use ranger_ims_server.Prelude.{
  ℕ, ◌<◌, ◌≡◌, refl, ap, ◌∙◌, String, Bool, true, false, ◌||◌, List, [], ◌∷◌, map, elem, Eq, ◌==◌,
  string_eq, nat_eq, arith, Bool-cases, inl, inr, if◌then◌else◌, All,
}
use ranger_ims_server.Model.Time.{normalize, normalize_idempotent}
use ranger_ims_server.Model.{ReportEntry, Incident, IncidentReport, freeze, sort_entries}
use Sorting.{sort_entries_idempotent}

unfoldable pub build_entry : ReportEntry → ReportEntry
build_entry e = record e { created = normalize e.created }

unfoldable pub build_incident : Incident → Incident
build_incident i = record i {
  created = normalize i.created;
  ranger_handles = freeze i.ranger_handles;
  incident_types = freeze i.incident_types;
  report_entries = sort_entries i.report_entries;
  incident_report_numbers = freeze i.incident_report_numbers;
}

unfoldable pub build_report : IncidentReport → IncidentReport
build_report r = record r {
  created = normalize r.created;
  report_entries = sort_entries r.report_entries;
}

module _ {ℓ} {A : Type ℓ} ⦃e : Eq A⦄ where
  elem-freeze : (a : A) (xs : List A) → elem a (freeze xs) ≡ elem a xs
  unfolding freeze
  elem-freeze a [] = refl
  elem-freeze a (x ∷ xs) = elim (Bool-cases (elem x xs)) [
    | inl old ↦ rw old (rw (elem-freeze a xs) (ground arith))
    | inr new ↦ rw new (rw (elem-freeze a xs) refl)
  ]

  pub freeze_idempotent : (xs : List A) → freeze (freeze xs) ≡ freeze xs
  unfolding freeze
  freeze_idempotent [] = refl
  freeze_idempotent (x ∷ xs) = ground (arith, elem-freeze x xs, freeze_idempotent xs)

-- An incident whose entries have been built.
abbrev pub IsBuiltEntry : ReportEntry → Type 0
IsBuiltEntry e = build_entry e ≡ e

-- What the constructor makes of an incident that it has made is the same incident.
pub build_incident_idempotent :
    (i : Incident)
    → i.created.microsecond < 1000000
    → build_incident (build_incident i) ≡ build_incident i
unfolding build_incident
build_incident_idempotent i h = rw (
  normalize_idempotent i.created h,
  freeze_idempotent i.ranger_handles,
  freeze_idempotent i.incident_types,
  sort_entries_idempotent i.report_entries,
  freeze_idempotent i.incident_report_numbers,
)
