-- ===== src/Client/Samples.antt =====
-- Calls over a connection that keeps the lines it is sent, and the theorems about them.
use herdr_tokens.Prelude.{map, String, none, List, [], ◌∷◌, ◌++◌, ◌≡◌, ◌↔◌, refl, arith}
use herdr_tokens.Prelude.Int.{pos}
use herdr_tokens.Prelude.Result.{ok, err, OkThen}
use herdr_tokens.Dict.{Distinct, insert}
use herdr_tokens.Json.{Json, object, no_fields, field, text, null}
use herdr_tokens.Order.{before}
use herdr_tokens.Json.Print.{hex_char, put_unicode, print, put_body, put_raw, escape_of}
use herdr_tokens.Json.Parse.{
  parse, read_value, read_body, read_key, skip_ws, start_of, ahead, expect, piece, number_span,
}
use herdr_tokens.Json.Marshal.{insert_field, marshal}
use herdr_tokens.Wire.Decode.{
  is_field, into_fields, into_items, into_entries, workspace_field, decode_workspace, agent_field,
  decode_agent, snapshot_field, into_snapshot, result_field, decode_snapshot,
}
use herdr_tokens.Wire.Decode.Reading.{envelope, snapshot_json}
use herdr_tokens.Decimal.{itoa}
use herdr_tokens.Derive.{source, desired}
use herdr_tokens.Derive.Samples.{office, staff}
use herdr_tokens.Controller.Samples.{both}
use herdr_tokens.Client.{
  Transport, new_client, request, request_id, snapshot, report_metadata, report_params, call,
  empty_snapshot, response_field, decode_response,
}
use herdr_tokens.Client.Ids.{id_of, lines_sent, request_ids-Distinct}
use herdr_tokens.Client.Reports.{IsReportLine, report_line}
use herdr_tokens.Client.Replies.{Accepted, Delivered, snapshot_iff, report_metadata_iff}

-- It answers every request with a snapshot of two workspaces.
abbrev pub obliging : Transport (List String)
obliging = record {
  dial = λ w. (none, w);
  write = λ line w. (none, w ++ (line ∷ []));
  read_line = λ w. (
    (
      print
          (object (
            field "result" (envelope (record { result_type = "session_snapshot"; snapshot = both }))
              no_fields))
          "\n",
      none,
    ),
    w,
  );
  ctx_err = λ w. none;
}

-- Its result is the payload, where the client expects an envelope.
abbrev pub misread : Transport (List String)
misread = record obliging {
  read_line = λ w. ((print (object (field "result" (snapshot_json both) no_fields)) "\n", none), w);
}

computing : Unit {0}
unfolding snapshot call request request_id report_metadata report_params itoa lines_sent id_of
    marshal insert_field before print put_body put_raw escape_of parse read_value read_body read_key
    skip_ws start_of ahead expect piece number_span decode_response response_field decode_snapshot
    result_field into_snapshot snapshot_field into_items decode_workspace workspace_field
    decode_agent agent_field into_entries into_fields is_field insert
computing = tt

two_workspaces : (snapshot obliging new_client []).0 ≡ ok both
unfolding computing
two_workspaces = refl

misread_is_an_error : (snapshot misread new_client []).0 ≡ err empty_snapshot
unfolding computing
misread_is_an_error = refl

snapshot_iff_example :
    ((snapshot obliging new_client []).0 ≡ ok both) ↔ Delivered obliging new_client [] both
snapshot_iff_example = snapshot_iff obliging new_client [] both

report_metadata_iff_example :
    ((report_metadata obliging "w1" source
        (desired office staff "label")
        (pos 90000)
        (new_client, [])).0
      ≡ none)
    ↔ Accepted obliging "w1" source (desired office staff "label") (pos 90000) new_client []
report_metadata_iff_example =
    report_metadata_iff obliging "w1" source (desired office staff "label") (pos 90000) new_client
      []

abbrev three_calls : List (String × Json)
three_calls =
    ("session.snapshot", object no_fields) ∷ ("a", object no_fields) ∷ ("b", object no_fields) ∷ []

request_ids-Distinct_example :
    Distinct (map id_of (lines_sent obliging three_calls new_client ([], [])))
request_ids-Distinct_example =
    request_ids-Distinct obliging three_calls [] (omega arith) (tt, (tt, (tt, tt)))

request_text :
    marshal (
      request (record { seq = 7 }) "m" (object (field "b" (text "\n<") (field "a" null no_fields))))
    ≡ ok "{\"id\":\"herdr-tokens-7\",\"method\":\"m\",\"params\":{\"a\":null,\"b\":\"\\n\\u003c\"}}"
unfolding computing hex_char put_unicode
request_text = refl

report_line_example :
    OkThen
      (marshal (
        request new_client "workspace.report_metadata"
          (object (report_params "w1" source (desired office staff "label") (pos 90000)))))
      (IsReportLine 0 "w1" source (desired office staff "label") (pos 90000))
report_line_example = report_line new_client "w1" source (desired office staff "label") (pos 90000)
