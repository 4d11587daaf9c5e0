-- ===== src/Tests/New.antt =====
-- Requests for a new incident and for a new incident report.
use ranger_ims_server.Store.Statements.Reports
use ranger_ims_server.Store.Statements.Entries.{
  attach_report_entry_to_incident_report, next_id, attach_report_entry_to_incident,
  create_report_entry,
}
use ranger_ims_server.Store.Entries.{
  initial_report_entries_of_report, create_and_attach_to_incident_report, create_entry,
  initial_report_entries, create_and_attach_to_incident,
}
use ranger_ims_server.Store.Reports.{
  report_row_of, write_incident_report, next_incident_report_number, number_and_write_report,
  create_incident_report,
}
use ranger_ims_server.Store.Statements.Reports.{max_incident_report_number}
use ranger_ims_server.Model.Build.{build_report, build_incident}
use ranger_ims_server.Codec.Incidents.{report_of_json, incident_of_json}
use ranger_ims_server.Api.New.Body.{
  check_report, decoded, stamp, stamp_all, stamp_in, stamp_entries, default, attempt, refuse_keys,
  fill_incident, fill_report, report_from, incident_from,
}
use ranger_ims_server.Store.Statements.Incidents
use ranger_ims_server.Model.Time.{same, normalize, DateTime, pos}
use ranger_ims_server.Model.{
  description, freeze, concentric, radial_minute, radial_hour, sort_entries,
}
use ranger_ims_server.Store.Incidents.{
  attach_incident_types, attach_ranger_handles, row_of, write_incident, next_incident_number,
  number_and_write, create_incident,
}
use ranger_ims_server.Store.Values.{as_incident_state_value, as_date_time_value}
use ranger_ims_server.Store.Statements.Incidents.{maximum, fits, max_incident_number}
use ranger_ims_server.Store.Transactions.{run_interaction, run_query, Connection}
use ranger_ims_server.Api.Server.{call, author_of, value, numbered, authorized}
use ranger_ims_server.Codec.Values.{entry_of_json, priority_of_json, state_of_json}
use ranger_ims_server.Codec.Json.{
  items, iterate, get, members, index, set, assign, contains, Json, text, array, object, nil, cons,
  end, field,
}
use ranger_ims_server.Codec.Converter.{list_of, at_key}
use ranger_ims_server.Codec.Places.{location_of_json}
use ranger_ims_server.Tests.Clock.{iso_format, parse_iso}
use ranger_ims_server.Api.New.ReportEffect.{FilesReport, new_incident_report_effect}
use ranger_ims_server.Api.New.{
  new_incident_report, file_report, checked, file_incident, parsed, new_incident,
}
use ranger_ims_server.Prelude.{string_eq, String, ◌≡◌, refl, some}
use ranger_ims_server.Store.Statements.Access.{event_access}
use ranger_ims_server.Store.Access.{access_lists}
use ranger_ims_server.Auth.Acl.{match_acl}
use ranger_ims_server.Auth.Provider.{
  event_rights, authorizations_for_user, user_from_bearer_authorization, check_authentication,
  authenticate_request, authorize_request,
}
use ranger_ims_server.Auth.Authorization.{write_incidents, write_incident_reports}
use ranger_ims_server.Api.New.Effect.{IsPermitted, Files, new_incident_effect}
use ranger_ims_server.Tests.Converter.{converter, converts}
use ranger_ims_server.Tests.Api.{jwt, settings, request, connection}

abbrev early : DateTime
early = record { second = pos 3; microsecond = 0 }

abbrev body : Json
body = object (
    field "summary" (text "Lost child")
      (field "report_entries" (array (cons (object (field "text" (text "Found") end)) nil)) end))

abbrev after : Connection
after =
    (new_incident converter jwt settings 150 early early "2019" (some body) request connection).1

created :
    new_incident converter jwt settings 150 early early "2019" (some body) request connection
    ≡ (value (numbered 1), after)
unfolding new_incident authorized authorize_request authenticate_request check_authentication
    user_from_bearer_authorization authorizations_for_user event_rights match_acl access_lists
    run_query event_access string_eq parsed author_of file_incident checked incident_from
    fill_incident refuse_keys attempt contains assign default set stamp_entries index stamp_in
    stamp_all members stamp decoded incident_of_json at_key get parse_iso iso_format state_of_json
    priority_of_json location_of_json list_of iterate items entry_of_json build_incident call
    create_incident sort_entries run_interaction number_and_write next_incident_number
    max_incident_number write_incident as_date_time_value normalize fits row_of maximum radial_hour
    radial_minute as_incident_state_value concentric attach_ranger_handles freeze
    attach_incident_types create_and_attach_to_incident initial_report_entries description same
    create_entry create_report_entry attach_report_entry_to_incident next_id
    Incidents.create_incident
created = refl

new_incident_effect_example :
    (author : String) × IsPermitted jwt settings 150 "2019" write_incidents request connection
      author
    × Files early early "2019" author connection after (numbered 1)
new_incident_effect_example =
    new_incident_effect converts jwt settings 150 early early "2019" (some body) request connection
      after (numbered 1) created

abbrev after_report : Connection
after_report =
    (new_incident_report converter jwt settings 150 early early "2019" (some body) request
      connection).1

reported :
    new_incident_report converter jwt settings 150 early early "2019" (some body) request connection
    ≡ (value (numbered 1), after_report)
unfolding new_incident_report authorized authorize_request authenticate_request check_authentication
    user_from_bearer_authorization authorizations_for_user event_rights match_acl access_lists
    run_query event_access string_eq parsed author_of file_report checked report_from fill_report
    refuse_keys attempt contains assign set stamp_entries index stamp_in stamp_all members stamp
    decoded at_key get parse_iso iso_format list_of iterate items entry_of_json call sort_entries
    run_interaction as_date_time_value normalize fits maximum same create_entry create_report_entry
    next_id check_report default report_of_json create_incident_report build_report
    number_and_write_report next_incident_report_number max_incident_report_number
    write_incident_report report_row_of create_and_attach_to_incident_report
    initial_report_entries_of_report attach_report_entry_to_incident_report
    Reports.create_incident_report
reported = refl

new_incident_report_effect_example :
    (author : String) × IsPermitted jwt settings 150 "2019" write_incident_reports request
      connection author
    × FilesReport early early "2019" author connection after_report (numbered 1)
new_incident_report_effect_example =
    new_incident_report_effect converts jwt settings 150 early early "2019" (some body) request
      connection after_report (numbered 1) reported
