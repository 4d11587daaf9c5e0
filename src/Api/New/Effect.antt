-- ===== src/Api/New/Effect.antt =====
-- What the handlers of new incidents and new reports hand to the store.
use mathlib.Core.Path.{subst}
use ranger_ims_server.Prelude.{ℕ, String, ◌≡◌, ◌∙◌, true, Option, none, some, List, ◌∷◌, All, arith}
use ranger_ims_server.Auth.Authorization.{Authorization, write_incidents, meets}
use ranger_ims_server.Auth.Acl.{ImsUser}
use ranger_ims_server.Auth.Provider.{Settings, Jwt, Request, authorizations_for_user}
use ranger_ims_server.Auth.Provider.Requests.{ComesFrom}
use ranger_ims_server.Model.{Incident}
use ranger_ims_server.Model.Time.{DateTime}
use ranger_ims_server.Codec.Json.{Json}
use ranger_ims_server.Codec.Converter.{Converter, IsConverter}
use ranger_ims_server.Store.Values.{ok}
use ranger_ims_server.Store.Transactions.{Connection}
use ranger_ims_server.Store.Access.{access_lists}
use ranger_ims_server.Store.Incidents.{create_incident}
use ranger_ims_server.Store.Incidents.Created.{filed}
use ranger_ims_server.Store.Incidents.Returned.{create_incident-filed}
use ranger_ims_server.Api.Server.{
  Outcome, Reply, value, numbered, call, give, authorized, author_of, ◌>>=◌,
}
use ranger_ims_server.Api.Server.Sequences.{
  authorized-gives, >>=-gives, call-gives, author_of-gives,
}
use ranger_ims_server.Api.New.{checked, parsed, file_incident, new_incident}
use ranger_ims_server.Api.New.Body.{incident_from}
use ranger_ims_server.Api.New.Decoded.{IsTyped, incident_from-lem}

module _ (jwt : Jwt) (s : Settings) (now : ℕ) (e : String) (required : Authorization) (r : Request)
    (c : Connection) where
  -- The request comes from a user with the authorization in the event, whose first short name is given.
  abbrev pub IsPermitted : String → Type 0
  IsPermitted author =
      (u : ImsUser) × ComesFrom jwt now r u
      × (meets required (authorizations_for_user s (access_lists c) (some u) (some e)) ≡ true)
      × ((names : List String) × (u.short_names ≡ author ∷ names))

pub parsed-same :
    (body : Option Json) (json : Json) (c c' : Connection)
    → parsed body c ≡ (value json, c')
    → c' ≡ c
unfolding parsed
parsed-same none json c c' h = ground arith
parsed-same (some j) json c c' h = ground arith

abbrev pub Files : DateTime → DateTime → String → String → Connection → Connection → Reply → Type 0
Files clock stored e author c c' answer =
    (i : Incident) × (i.event_id ≡ e)
    × All (IsTyped author clock) i.report_entries
    × (create_incident i author stored c ≡ (ok (filed i author stored c.working), c'))
    × (answer ≡ numbered (filed i author stored c.working).number)

module _ {conv : Converter} (k : IsConverter conv) (jwt : Jwt) (s : Settings) (now : ℕ)
    (clock stored : DateTime) where
  pub checked-gives :
      {A : Type 0} (o : Outcome A) (a : A) (c c' : Connection)
      → checked o c ≡ (value a, c')
      → (o ≡ value a) × (c' ≡ c)
  unfolding checked
  checked-gives o a c c' h = (ground arith, ground arith)

  file_incident-Files :
      (e author : String) (json : Json) (c c' : Connection) (answer : Reply)
      → file_incident conv jwt s now clock stored e author json c ≡ (value answer, c')
      → Files clock stored e author c c' answer
  unfolding file_incident
  file_incident-Files e author json c c' answer h =
      let (i, c₁, decodes, h₁) =
        >>=-gives (checked (incident_from conv e author clock json))
          (λ i. call (create_incident i author stored) >>= λ f. give (numbered f.number)) c c'
          answer h in
      let (decodes', same) =
        checked-gives (incident_from conv e author clock json) i c c₁ decodes in
      let (f, c₂, creates, last) =
        >>=-gives (call (create_incident i author stored)) (λ f. give (numbered f.number)) c₁ c'
          answer h₁ in
      let (event, typed) = incident_from-lem k author clock e json i decodes' in
      let created : create_incident i author stored c ≡ (ok f, c₂) =
        subst (λ d. create_incident i author stored d ≡ (ok f, c₂)) same
          (call-gives (create_incident i author stored) f c₁ c₂ creates) in
      let it = create_incident-filed i f author stored c c₂ created in
      (i, event, typed, ground (arith, created, it), ground (arith, it))

-- If the handler of new incidents gives a number, then the request comes from a user who may write the
-- incidents of the event in the path, and the handler has made one change to the store: it has created,
-- in the name of the user's first short name, an incident of that event all of whose entries are by that
-- name, not automatic, and of the time of the request. The incident that the store returns is the one
-- with the event's next number and the initial entries, and the reply tells its number.
pub new_incident_effect :
    {conv : Converter}
    → IsConverter conv
    → (jwt : Jwt) (s : Settings) (now : ℕ) (clock stored : DateTime) (e : String)
      (body : Option Json) (r : Request) (c c' : Connection) (answer : Reply)
    → new_incident conv jwt s now clock stored e body r c ≡ (value answer, c')
    → (author : String) × IsPermitted jwt s now e write_incidents r c author
      × ((i : Incident) × (i.event_id ≡ e)
          × All (IsTyped author clock) i.report_entries
          × (create_incident i author stored c ≡ (ok (filed i author stored c.working), c'))
          × (answer ≡ numbered (filed i author stored c.working).number))
unfolding new_incident
new_incident_effect {conv} k jwt s now clock stored e body r c c' answer h =
    let file = file_incident conv jwt s now clock stored e in
    let (r', c₁, admitted, h₁) =
      >>=-gives (authorized jwt s now (some e) write_incidents r)
        (λ q. parsed body >>= λ json. author_of q >>= λ author. file author json) c c' answer h in
    let (same₁, (u, from, rights, known)) =
      authorized-gives jwt s now (some e) write_incidents r c r' c₁ admitted in
    let (json, c₂, parses, h₂) =
      >>=-gives (parsed body) (λ json. author_of r' >>= λ author. file author json) c₁ c' answer
        h₁ in
    let (author, c₃, wrote, h₃) =
      >>=-gives (author_of r') (λ author. file author json) c₂ c' answer h₂ in
    let (same₃, (names, named)) = author_of-gives r' u author c₂ c₃ known wrote in
    let same : c₃ ≡ c = same₃ ∙ parsed-same body json c₁ c₂ parses ∙ same₁ in
    (
      author,
      (u, from, rights, (names, named)),
      file_incident-Files k jwt s now clock stored e author json c c' answer
          (subst (λ d. file author json d ≡ (value answer, c')) same h₃),
    )
