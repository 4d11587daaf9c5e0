-- ===== src/Auth/Authorization.antt =====
-- `class Authorization(Flag)`: a set of flags, one field for each member.
use ranger_ims_server.Prelude.{Bool, true, false, ◌&&◌, ◌||◌}

pub record Authorization : Type 0 where
  pub ims_admin : Bool
  pub read_personnel : Bool
  pub read_incidents : Bool
  pub write_incidents : Bool
  pub write_incident_reports : Bool

-- `Authorization.none`
abbrev pub nothing : Authorization
nothing = record {
  ims_admin = false;
  read_personnel = false;
  read_incidents = false;
  write_incidents = false;
  write_incident_reports = false;
}

abbrev pub ims_admin : Authorization
ims_admin = record nothing { ims_admin = true }

abbrev pub read_personnel : Authorization
read_personnel = record nothing { read_personnel = true }

abbrev pub read_incidents : Authorization
read_incidents = record nothing { read_incidents = true }

abbrev pub write_incidents : Authorization
write_incidents = record nothing { write_incidents = true }

abbrev pub write_incident_reports : Authorization
write_incident_reports = record nothing { write_incident_reports = true }

-- `a | b`
infixl 30 ◌∪◌
abbrev pub ◌∪◌ : Authorization → Authorization → Authorization
a ∪ b = record {
  ims_admin = a.ims_admin || b.ims_admin;
  read_personnel = a.read_personnel || b.read_personnel;
  read_incidents = a.read_incidents || b.read_incidents;
  write_incidents = a.write_incidents || b.write_incidents;
  write_incident_reports = a.write_incident_reports || b.write_incident_reports;
}

-- `bool(a & b)`
abbrev pub meets : Authorization → Authorization → Bool
meets a b =
    (a.ims_admin && b.ims_admin)
    || ((a.read_personnel && b.read_personnel)
        || ((a.read_incidents && b.read_incidents)
            || ((a.write_incidents && b.write_incidents)
                || (a.write_incident_reports && b.write_incident_reports))))
