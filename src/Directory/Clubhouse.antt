-- ===== src/Directory/Clubhouse.antt =====
-- directory/clubhouse_db/_dms.py and _directory.py: a directory that is read from another system's
-- database. That database's answers, and the clock, are given for each try to read it.
pub mod Loading
use ranger_ims_server.Prelude.{
  ℕ, suc, ◌+◌, ◌*◌, ◌≡◌, refl, String, ◌<>◌, Bool, true, false, not, ◌&&◌, ◌||◌, inl, inr, Option,
  none, some, List, [], ◌∷◌, ◌++◌, map, any, elem, keep, first, string_eq, option_eq, nat_eq, ◌==◌,
  ltb, if◌then◌else◌, arith, Bool-cases, Eq,
}
use ranger_ims_server.Model.Ranger.{
  Ranger, RangerStatus, active, inactive, vintage, other, build_ranger,
}
use ranger_ims_server.Auth.Acl.{ImsUser}
use ranger_ims_server.Directory.Dictionary.{look, put, values}
use ranger_ims_server.Directory.{
  Answer, answer, directory_error, other_error, user_from_ranger, or_else,
}
use ranger_ims_server.Directory.File.{status_from_id}

-- A row of the table of persons
pub record Person : Type 0 where
  pub id : String
  pub callsign : String
  pub first_name : String
  pub mi : String
  pub last_name : String
  pub email : String
  pub status : String
  pub on_site : ℕ
  pub password : Option String

pub record Position : Type 0 where
  pub position_id : String
  pub name : String
  pub members : List Ranger

unfoldable pub full_name : String → String → String → String
full_name forename middle surname =
    if middle == ""
    then forename <> (" " <> surname)
    else forename <> (" " <> (middle <> (". " <> surname)))

unfoldable pub ranger_of_row : Person → Ranger
ranger_of_row row = build_ranger (record {
  handle = row.callsign;
  name = full_name row.first_name row.mi row.last_name;
  status = status_from_id row.status;
  email = row.email ∷ [];
  enabled = not (row.on_site == 0);
  directory_id = some row.id;
  password = row.password;
})

unfoldable pub rangers_by_id : List Person → List (String × Ranger) → List (String × Ranger)
rangers_by_id [] d = d
rangers_by_id (row ∷ rows) d = rangers_by_id rows (put row.id (ranger_of_row row) d)

unfoldable pub positions_by_id :
    List (String × String) → List (String × Position) → List (String × Position)
positions_by_id [] d = d
positions_by_id ((id, title) ∷ rows) d =
    positions_by_id rows (put id (record { position_id = id; name = title; members = [] }) d)

same_status : RangerStatus → RangerStatus → Bool
same_status active active = true
same_status inactive inactive = true
same_status vintage vintage = true
same_status other other = true
same_status a b = false

abbrev within : List String → List String → Bool
within xs ys = if any (λ x. not (elem x ys)) xs then false else true

-- `==` on Rangers, with their addresses as sets
unfoldable pub same_ranger : Ranger → Ranger → Bool
unfolding same_status
same_ranger a b =
    a.handle == b.handle
    && a.name == b.name
    && same_status a.status b.status
    && within a.email b.email
    && within b.email a.email
    && (if a.enabled then b.enabled else not b.enabled)
    && a.directory_id == b.directory_id
    && a.password == b.password

-- `position.members.add(ranger)`
unfoldable pub add_to_set : Ranger → List Ranger → List Ranger
add_to_set r rs = if any (same_ranger r) rs then rs else rs ++ r ∷ []

join_one :
    String → Option Ranger → Option Position → List (String × Position) → List (String × Position)
join_one position_id (some r) (some p) d =
    put position_id (record p { members = add_to_set r p.members }) d
join_one position_id ranger position d = d

-- The loop over the pairs of the IDs of a Ranger and a position
unfoldable pub join_all :
    List (String × Ranger)
    → List (String × String)
    → List (String × Position)
    → List (String × Position)
unfolding join_one
join_all rangers [] d = d
join_all rangers ((ranger_id, position_id) ∷ rows) d =
    join_all rangers rows (join_one position_id (look ranger_id rangers) (look position_id d) d)

-- What the queries give, or the first exception of one
pub data Fetch : Type 0 where
  fetched : List Person → List (String × String) → List (String × String) → Fetch
  sql_error cancelled other_exception : Fetch

-- One try: the time at its start, what its queries give, and the time at its end
pub record Try : Type 0 where
  pub now : ℕ
  pub fetch : Fetch
  pub finished : ℕ

pub record State : Type 0 where
  pub personnel : List Ranger
  pub positions : List Position
  pub last_updated : ℕ
  pub busy : Bool
  pub error_count : ℕ

unfoldable pub loaded :
    List Person → List (String × String) → List (String × String) → ℕ → State → State
loaded persons titles join finished st =
    let rangers = rangers_by_id persons [] in
    record st {
      personnel = values rangers;
      positions = values (join_all rangers join (positions_by_id titles []));
      last_updated = finished;
      error_count = 0;
    }

abbrev pub failed : State → State
failed st = record st { last_updated = 0; error_count = suc st.error_count }

abbrev pub set_busy : Bool → State → State
set_busy b st = record st { busy = b }

abbrev pub Outcome : Type 0
Outcome = Answer (List Ranger) × State

-- `finally: self._state._busy = False`
abbrev pub finally : Option Outcome → Option Outcome
finally none = none
finally (some (o, st)) = some (o, set_busy false st)

-- `cache_interval` is in the unit of the times.
module _ (cache_interval : ℕ) where
  -- The end of an attempt that has failed; `since` is when the personnel had been updated before it.
  unfoldable pub give_up : ℕ → ℕ → State → Outcome
  give_up since now st =
      if ltb (since + cache_interval * 2) now
      then (directory_error, st)
      else (answer st.personnel, st)

  unfoldable pub attempt : Option Outcome → Try → State → Option Outcome
  attempt again t st = elim t.fetch [
    | fetched persons titles join ↦
        let st' = loaded persons titles join t.finished st in some (answer st'.personnel, st')
    | sql_error ↦
        if ltb (suc st.error_count) 2
        then again
        else some (give_up st.last_updated t.now (failed st))
    | cancelled ↦ some (give_up st.last_updated t.now (failed st))
    | other_exception ↦ some (give_up st.last_updated t.now (failed st))
  ]

  -- `personnel()`; the tries are numbered, and the recursive call is on fuel.
  unfoldable pub personnel : ℕ → (ℕ → Try) → ℕ → State → Option Outcome
  personnel ℕ.zero tries k st = none
  personnel (suc fuel) tries k st =
      let again = personnel fuel tries (suc k) (failed (set_busy true st)) in
      if not st.busy && ltb (st.last_updated + cache_interval) (tries k).now
      then finally (attempt again (tries k) (set_busy true st))
      else some (answer st.personnel, st)

  -- The Ranger that a term stands for
  unfoldable pub ranger_for : String → List Ranger → Option Ranger
  ranger_for term rangers =
      or_else (first (λ (r : Ranger). r.handle == term) rangers)
        (first (λ (r : Ranger). elem term r.email) rangers)

  unfoldable pub with_positions : Ranger → Option Outcome → Option (Answer (Option ImsUser) × State)
  with_positions r none = none
  with_positions r (some (directory_error, st)) = some (directory_error, st)
  with_positions r (some (other_error, st)) = some (other_error, st)
  with_positions r (some (answer _, st)) =
      let groups = keep (λ (p : Position). any (same_ranger r) p.members) st.positions in
      some (answer (some (user_from_ranger r (map (λ (p : Position). p.name) groups))), st)

  chosen : ℕ → (ℕ → Try) → ℕ → State → Option Ranger → Option (Answer (Option ImsUser) × State)
  chosen fuel tries k st none = some (answer none, st)
  chosen fuel tries k st (some r) = with_positions r (personnel fuel tries k st)

  among : String → ℕ → (ℕ → Try) → ℕ → Option Outcome → Option (Answer (Option ImsUser) × State)
  unfolding ranger_for chosen
  among term fuel tries k none = none
  among term fuel tries k (some (directory_error, st)) = some (directory_error, st)
  among term fuel tries k (some (other_error, st)) = some (other_error, st)
  among term fuel tries k (some (answer rangers, st)) =
      chosen fuel tries k st (ranger_for term rangers)

  -- `lookupUser`, which asks for the personnel and then for the positions, which asks for the personnel
  -- again. A call takes two tries at most.
  unfoldable pub lookup_user :
      ℕ → String → (ℕ → Try) → ℕ → State → Option (Answer (Option ImsUser) × State)
  unfolding among
  lookup_user fuel term tries k st = among term fuel tries (k + 2) (personnel fuel tries k st)
