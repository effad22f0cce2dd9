-- ===== src/Wire/Samples.antt =====
-- A session as a server writes it, with a null status and null tokens.
use herdr_tokens.Prelude.{none, some, [], ◌∷◌, ◌≡◌, refl, eq_iff, arith}
use herdr_tokens.Prelude.Result.{ok}
use herdr_tokens.Wire.{SnapshotResult}
use herdr_tokens.Wire.Decode.{decode_snapshot, into_snapshot, no_snapshot}
use herdr_tokens.Wire.Decode.{is_field}
use herdr_tokens.Wire.Decode.Reading.{envelope, workspace_json}
use herdr_tokens.Wire.Decode.Unknown.{trim_result, decode_snapshot-session}
use herdr_tokens.Json.{Json, text, number, array, object, item, no_items, field, no_fields}

abbrev session : SnapshotResult
session = record {
  result_type = "session_snapshot";
  snapshot = record {
    workspaces =
        record { workspace_id = "w1"; label = "a"; agent_status = none; tokens = [] }
        ∷ record {
          workspace_id = "w2";
          label = "b";
          agent_status = some "idle";
          tokens = ("x", "1") ∷ ("y", "2") ∷ [];
        }
        ∷ [];
    agents = record { workspace_id = "w2"; agent = "claude"; agent_status = some "idle" } ∷ [];
  };
}

-- The session with fields that the client does not know.
abbrev rich : Json
rich = object (
    field "server" (number "7") (
      field "snapshot"
        (object (
          field "agents"
            (array (
              item
                (object (
                  field "agent" (text "claude") (
                    field "agent_status" (text "idle")
                      (field "pane_id" (text "p1") (field "workspace_id" (text "w2") no_fields)))))
                no_items))
            (field "tabs" (array no_items) (
              field "workspaces"
                (array (
                  item
                    (workspace_json (record {
                      workspace_id = "w1";
                      label = "a";
                      agent_status = none;
                      tokens = [];
                    }))
                    (item
                      (object (
                        field "agent_status" (text "idle") (
                          field "label" (text "b") (
                            field "number" (number "2") (
                              field "tokens"
                                (object (field "x" (text "1") (field "y" (text "2") no_fields)))
                                (field "workspace_id" (text "w2") no_fields))))))
                      no_items)))
                no_fields))))
        (field "type" (text "session_snapshot") no_fields)))

-- Only the known fields are left.
rich_trimmed : trim_result rich ≡ envelope session
unfolding is_field
rich_trimmed = refl

decode_snapshot-session_example :
    (decode_snapshot (some rich) ≡ ok session)
    × (into_snapshot (envelope session) no_snapshot ≡ ok no_snapshot)
decode_snapshot-session_example =
    decode_snapshot-session rich session
      (tt, (((ground (arith, eq_iff "y" "x"), tt), (tt, tt)), tt)) rich_trimmed
