-- ===== src/Api/New/Decoded.antt =====
-- What a new incident or a new report is decoded to.
use mathlib.Core.Path.{subst}
use ranger_ims_server.Prelude.{
  String, ◌≡◌, refl, sym, ap, ◌∙◌, false, List, [], ◌∷◌, All, string_eq, ◌==◌, inl, inr, arith,
  Bool-cases,
}
use ranger_ims_server.Model.{ReportEntry, Incident, IncidentReport, sort_entries}
use ranger_ims_server.Model.Time.{DateTime, normalize}
use ranger_ims_server.Model.Build.{build_entry, build_incident, build_report}
use ranger_ims_server.Model.Build.Sorting.{sort_entries-All}
use ranger_ims_server.Codec.Json.{Json, text, number, array, nil, ok, get, index, contains, assign}
use ranger_ims_server.Codec.Json.Steps.{Result-cases, get-assign, get-assign_ne}
use ranger_ims_server.Codec.Converter.{Converter, IsConverter, Converts, at_key, list_of}
use ranger_ims_server.Codec.Values.{entry_of_json}
use ranger_ims_server.Codec.Incidents.{incident_of_json, report_of_json}
use ranger_ims_server.Api.Server.{value}
use ranger_ims_server.Api.New.Body.{
  attempt, accept, default, refuse_keys, decoded, stamp_in, fill_incident, fill_report,
  stamp_entries, incident_from, report_from,
}
use ranger_ims_server.Api.New.Typed.{
  >>=-eq-value, attempt-inv, decoded-inv, value-injective, IsSigned, AreSigned,
  stamp_entries-AreSigned,
}

-- By the author, not automatic, and of the time
abbrev pub IsTyped : String → DateTime → ReportEntry → Type 0
IsTyped author clock entry =
    (entry.author ≡ author) × (entry.automatic ≡ false) × (entry.created ≡ normalize clock)

module _ {conv : Converter} (k : IsConverter conv) (author : String) (clock : DateTime) where
  entry-IsTyped :
      (w : Json) (entry : ReportEntry)
      → IsSigned author (conv.iso_format clock) w
      → entry_of_json conv w ≡ ok entry
      → IsTyped author clock entry
  unfolding entry_of_json at_key build_entry
  entry-IsTyped w entry (timed, signed, typed) h =
      let t = k.time_lem clock in
      let a = k.text_lem author in
      let b = k.boolean_lem false in (ground arith, ground arith, ground arith)

  entries-AreTyped :
      (ws : List Json) (entries : List ReportEntry)
      → All (IsSigned author (conv.iso_format clock)) ws
      → Converts (entry_of_json conv) ws entries
      → All (IsTyped author clock) entries
  entries-AreTyped [] [] s h = tt
  entries-AreTyped [] (e ∷ es) s h = elim h [ ]
  entries-AreTyped (w ∷ ws) [] s h = elim h [ ]
  entries-AreTyped (w ∷ ws) (e ∷ es) s h =
      (entry-IsTyped w e s.0 h.0, entries-AreTyped ws es s.1 h.1)

  list-AreTyped :
      (j : Json) (entries : List ReportEntry)
      → AreSigned author (conv.iso_format clock) j
      → list_of conv (entry_of_json conv) j ≡ ok entries
      → All (IsTyped author clock) entries
  unfolding list_of
  list-AreTyped j entries (ws, members, signed) h =
      entries-AreTyped ws entries signed (k.list_inv (entry_of_json conv) ws entries (ground arith))

incident_of_json-entries :
    (conv : Converter) (v : Json) (i : Incident)
    → incident_of_json conv v ≡ ok i
    → (es : List ReportEntry) × (at_key "report_entries" (list_of conv (entry_of_json conv)) v
        ≡ ok es)
      × (i.report_entries ≡ sort_entries es)
unfolding incident_of_json build_incident
incident_of_json-entries conv v i h =
    elim (Result-cases (at_key "report_entries" (list_of conv (entry_of_json conv)) v)) [
      | inl (es, found) ↦ (es, found, ground arith)
      | inr (e, failed) ↦ ground arith
    ]

report_of_json-entries :
    (conv : Converter) (v : Json) (r : IncidentReport)
    → report_of_json conv v ≡ ok r
    → (es : List ReportEntry) × (at_key "report_entries" (list_of conv (entry_of_json conv)) v
        ≡ ok es)
      × (r.report_entries ≡ sort_entries es)
unfolding report_of_json build_report
report_of_json-entries conv v r h =
    elim (Result-cases (at_key "report_entries" (list_of conv (entry_of_json conv)) v)) [
      | inl (es, found) ↦ (es, found, ground arith)
      | inr (e, failed) ↦ ground arith
    ]

report_of_json-event :
    {conv : Converter} (k : IsConverter conv) (e : String) (v : Json) (r : IncidentReport)
    → get "event" v ≡ ok (text e)
    → report_of_json conv v ≡ ok r
    → r.event_id ≡ e
unfolding report_of_json build_report at_key
report_of_json-event k e v r named h = let t = k.text_lem e in ground arith

module _ {conv : Converter} (k : IsConverter conv) (author : String) (clock : DateTime) where
  found-AreTyped :
      (w : Json) (es : List ReportEntry)
      → (j : Json) × (get "report_entries" w ≡ ok j) × AreSigned author (conv.iso_format clock) j
      → at_key "report_entries" (list_of conv (entry_of_json conv)) w ≡ ok es
      → All (IsTyped author clock) es
  unfolding at_key
  found-AreTyped w es (j, there, signed) h = list-AreTyped k author clock j es signed (ground arith)

  pub incident_from-lem :
      (e : String) (json : Json) (i : Incident)
      → incident_from conv e author clock json ≡ value i
      → (i.event_id ≡ e) × All (IsTyped author clock) i.report_entries
  unfolding incident_from
  incident_from-lem e json i h =
      let now = conv.iso_format clock in
      let (filled, _, h₁) = >>=-eq-value (fill_incident e now json) _ i h in
      let (w, stamped, h₂) = >>=-eq-value (stamp_entries author now filled) _ i h₁ in
      let (i', done, h₃) = >>=-eq-value (decoded (incident_of_json conv w)) _ i h₂ in
      let (_, same, last) = >>=-eq-value (accept (i'.event_id == e)) _ i h₃ in
      let (es, found, sorted) = incident_of_json-entries conv w i' (decoded-inv _ i' done) in
      let typed = found-AreTyped w es (stamp_entries-AreSigned author now filled w stamped) found in
      let this : i' ≡ i = value-injective i' i last in
      subst (λ (x : Incident). (x.event_id ≡ e) × All (IsTyped author clock) x.report_entries) this
        (
          ground arith,
          subst (All (IsTyped author clock)) (sym sorted)
              (sort_entries-All (IsTyped author clock) es typed),
        )

default-get_ne :
    (key other : String) (v j w : Json)
    → (key == other) ≡ false
    → default other v j ≡ value w
    → get key w ≡ get key j
unfolding default
default-get_ne key other v j w n h =
    let (there, _, h₁) = >>=-eq-value (attempt (contains other j)) _ w h in
    elim (Bool-cases there) [
      | inl is ↦ ap (get key) (value-injective w j (ground arith))
      | inr not ↦ get-assign_ne key other v w j n (attempt-inv _ w (ground arith))
    ]

stamp_entries-get_ne :
    (key author now : String) (j w : Json)
    → (key == "report_entries") ≡ false
    → stamp_entries author now j ≡ value w
    → get key w ≡ get key j
unfolding stamp_entries
stamp_entries-get_ne key author now j w n h =
    let (es, _, h₁) = >>=-eq-value (attempt (index "report_entries" j)) _ w h in
    let (signed, _, h₂) = >>=-eq-value (stamp_in author now es) _ w h₁ in
    get-assign_ne key "report_entries" signed w j n (attempt-inv _ w h₂)

fill_report-event :
    (e now : String) (j w : Json) → fill_report e now j ≡ value w → get "event" w ≡ ok (text e)
unfolding fill_report string_eq
fill_report-event e now j w h =
    let (_, _, h₁) = >>=-eq-value (refuse_keys _ j) _ w h in
    let (a, assigned, h₂) = >>=-eq-value (attempt (assign "event" (text e) j)) _ w h₁ in
    let (b, numbered, h₃) = >>=-eq-value (attempt (assign "number" (number 0) a)) _ w h₂ in
    let (d, timed, last) = >>=-eq-value (attempt (assign "created" (text now) b)) _ w h₃ in
    default-get_ne "event" "report_entries" (array nil) d w refl last
    ∙ get-assign_ne "event" "created" (text now) d b refl (attempt-inv _ d timed)
    ∙ get-assign_ne "event" "number" (number 0) b a refl (attempt-inv _ b numbered)
    ∙ get-assign "event" (text e) a j (attempt-inv _ a assigned)

module _ {conv : Converter} (k : IsConverter conv) (author : String) (clock : DateTime) where
  pub report_from-lem :
      (e : String) (json : Json) (r : IncidentReport)
      → report_from conv e author clock json ≡ value r
      → (r.event_id ≡ e) × All (IsTyped author clock) r.report_entries
  unfolding report_from string_eq
  report_from-lem e json r h =
      let now = conv.iso_format clock in
      let (filled, fills, h₁) = >>=-eq-value (fill_report e now json) _ r h in
      let (w, stamped, h₂) = >>=-eq-value (stamp_entries author now filled) _ r h₁ in
      let decodes = decoded-inv (report_of_json conv w) r h₂ in
      let (es, found, sorted) = report_of_json-entries conv w r decodes in
      let typed =
        found-AreTyped k author clock w es (stamp_entries-AreSigned author now filled w stamped)
          found in
      let named =
        stamp_entries-get_ne "event" author now filled w refl stamped
        ∙ fill_report-event e now json filled fills in
      (
        report_of_json-event k e w r named decodes,
        subst (All (IsTyped author clock)) (sym sorted)
            (sort_entries-All (IsTyped author clock) es typed),
      )
