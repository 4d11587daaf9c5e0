-- ===== src/Model/Ranger.antt =====
-- model/_ranger.py, model/_eventaccess.py, model/_type.py: Rangers, access lists of an event, and
-- incident types.
use ranger_ims_server.Prelude.{String, Bool, Option, List, string_eq}
use ranger_ims_server.Model.{freeze}

pub data RangerStatus : Type 0 where
  active inactive vintage other : RangerStatus

-- The password is not part of the JSON form.
pub record Ranger : Type 0 where
  pub handle : String
  pub name : String
  pub status : RangerStatus
  pub email : List String
  pub enabled : Bool
  pub directory_id : Option String
  pub password : Option String

unfoldable pub build_ranger : Ranger → Ranger
build_ranger r = record r { email = freeze r.email }

pub record EventAccess : Type 0 where
  pub readers : List String
  pub writers : List String
  pub reporters : List String

unfoldable pub build_access : EventAccess → EventAccess
build_access a = record {
  readers = freeze a.readers;
  writers = freeze a.writers;
  reporters = freeze a.reporters;
}

pub record IncidentType : Type 0 where
  pub name : String
  pub hidden : Bool
