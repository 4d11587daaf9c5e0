-- ===== src/Api/New/ReportEffect.antt =====
-- application/_api.py: what `newIncidentReportResource` leaves in the store.
use mathlib.Core.Path.{subst}
use ranger_ims_server.Prelude.{ℕ, String, ◌≡◌, ◌∙◌, Option, some, All, arith}
use ranger_ims_server.Auth.Authorization.{write_incident_reports}
use ranger_ims_server.Auth.Provider.{Settings, Jwt, Request}
use ranger_ims_server.Model.{IncidentReport}
use ranger_ims_server.Model.Time.{DateTime}
use ranger_ims_server.Codec.Json.{Json}
use ranger_ims_server.Codec.Converter.{Converter, IsConverter}
use ranger_ims_server.Store.Values.{ok}
use ranger_ims_server.Store.Transactions.{Connection}
use ranger_ims_server.Store.Reports.{create_incident_report}
use ranger_ims_server.Store.Reports.Returned.{filed_report, create_report-filed}
use ranger_ims_server.Api.Server.{Reply, numbered, value, call, authorized, author_of, give, ◌>>=◌}
use ranger_ims_server.Api.Server.Sequences.{
  authorized-gives, >>=-gives, call-gives, author_of-gives,
}
use ranger_ims_server.Api.New.{checked, parsed, file_report, new_incident_report}
use ranger_ims_server.Api.New.Body.{report_from, check_report}
use ranger_ims_server.Api.New.Effect.{IsPermitted, parsed-same, checked-gives}
use ranger_ims_server.Api.New.Decoded.{IsTyped, report_from-lem}

abbrev pub FilesReport :
    DateTime → DateTime → String → String → Connection → Connection → Reply → Type 0
FilesReport clock stored e author c c' answer =
    (report : IncidentReport) × (report.event_id ≡ e)
    × All (IsTyped author clock) report.report_entries
    × (create_incident_report report author stored c
        ≡ (ok (filed_report report author stored c.working), c'))
    × (answer ≡ numbered (filed_report report author stored c.working).number)

module _ {conv : Converter} (k : IsConverter conv) (jwt : Jwt) (s : Settings) (now : ℕ)
    (clock stored : DateTime) where
  file_report-FilesReport :
      (e author : String) (json : Json) (c c' : Connection) (answer : Reply)
      → file_report conv jwt s now clock stored e author json c ≡ (value answer, c')
      → FilesReport clock stored e author c c' answer
  unfolding file_report
  file_report-FilesReport e author json c c' answer h =
      let (report, c₁, decodes, h₁) =
        >>=-gives (checked (report_from conv e author clock json))
          (λ report.
            call (create_incident_report report author stored) >>= λ f. give (numbered f.number))
          c c' answer h in
      let (decodes', same) =
        checked-gives k jwt s now clock stored (report_from conv e author clock json) report c c₁
          decodes in
      let (f, c₂, creates, last) =
        >>=-gives (call (create_incident_report report author stored))
          (λ f. give (numbered f.number)) c₁ c' answer h₁ in
      let (event, typed) = report_from-lem k author clock e json report decodes' in
      let created : create_incident_report report author stored c ≡ (ok f, c₂) =
        subst (λ d. create_incident_report report author stored d ≡ (ok f, c₂)) same
          (call-gives (create_incident_report report author stored) f c₁ c₂ creates) in
      let it = create_report-filed report f author stored c c₂ created in
      (report, event, typed, ground (arith, created, it), ground (arith, it))

-- If the handler of new incident reports gives a number, then the request comes from a user who may write
-- the incident reports of the event in the path, and the handler has made one change to the store: it has
-- created, in the name of the user's first short name, a report of that event all of whose entries are by
-- that name, not automatic, and of the time of the request. The report that the store returns is the one
-- with the next number among the reports of all events and the initial entries, and the reply tells its
-- number.
pub new_incident_report_effect :
    {conv : Converter}
    → IsConverter conv
    → (jwt : Jwt) (s : Settings) (now : ℕ) (clock stored : DateTime) (e : String)
      (body : Option Json) (r : Request) (c c' : Connection) (answer : Reply)
    → new_incident_report conv jwt s now clock stored e body r c ≡ (value answer, c')
    → (author : String) × IsPermitted jwt s now e write_incident_reports r c author
      × FilesReport clock stored e author c c' answer
unfolding new_incident_report
new_incident_report_effect {conv} k jwt s now clock stored e body r c c' answer h =
    let file = file_report conv jwt s now clock stored e in
    let (r', c₁, admitted, h₁) =
      >>=-gives (authorized jwt s now (some e) write_incident_reports r)
        (λ q. parsed body >>= λ json.
          checked (check_report e json) >>= λ _. author_of q >>= λ author. file author json)
        c c' answer h in
    let (same₁, (u, from, rights, known)) =
      authorized-gives jwt s now (some e) write_incident_reports r c r' c₁ admitted in
    let (json, c₂, parses, h₂) =
      >>=-gives (parsed body)
        (λ json. checked (check_report e json) >>= λ _. author_of r' >>= λ author. file author json)
        c₁ c' answer h₁ in
    let (_, c₃, passes, h₃) =
      >>=-gives (checked (check_report e json)) (λ _. author_of r' >>= λ author. file author json)
        c₂ c' answer h₂ in
    let (author, c₄, wrote, h₄) =
      >>=-gives (author_of r') (λ author. file author json) c₃ c' answer h₃ in
    let (same₄, (names, named)) = author_of-gives r' u author c₃ c₄ known wrote in
    let (_, same₃) = checked-gives k jwt s now clock stored (check_report e json) tt c₂ c₃ passes in
    let same : c₄ ≡ c = same₄ ∙ same₃ ∙ parsed-same body json c₁ c₂ parses ∙ same₁ in
    (
      author,
      (u, from, rights, (names, named)),
      file_report-FilesReport k jwt s now clock stored e author json c c' answer
          (subst (λ d. file author json d ≡ (value answer, c')) same h₄),
    )
