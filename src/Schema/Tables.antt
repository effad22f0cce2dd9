-- ===== src/Schema/Tables.antt =====
-- schema.go's closed tables, one for each kind of object, and the check of a whole fixture.
use herdr_tokens.Prelude.{String, true, false, List, [], ◌∷◌}
use herdr_tokens.Prelude.Result.{Result, ok, err}
use herdr_tokens.Json.Any.{AnyError, decode_any}
use herdr_tokens.Json.{Json, object, entries, type_name}
use herdr_tokens.Regexp.{Regex, range, seq, alt, literal, plus, times}
use herdr_tokens.Schema.{
  Violation, Checker, FieldSpec, ObjectSchema, addf, validate_object, literal_string, pattern,
  enum_string, nullable_enum_string, type_string, type_number, type_bool, object_of,
  array_of_objects, root_type,
}
use herdr_tokens.Schema.TokenRules.{digit, re_label, tokens_field}

abbrev pub known_agent_kinds : List String
known_agent_kinds = "claude" ∷ "codex" ∷ []

-- `[A-Z0-9]`
abbrev upper_or_digit : Regex
upper_or_digit = alt (range b'A' b'Z') digit

-- `^w\d+$`
abbrev pub re_workspace_id : Regex
re_workspace_id = seq (literal "w") (plus digit)

-- `^w\d+:t[A-Z0-9]+$`
abbrev pub re_tab_id : Regex
re_tab_id = seq (literal "w") (seq (plus digit) (seq (literal ":t") (plus upper_or_digit)))

-- `^w\d+:p[A-Z0-9]+$`
abbrev pub re_pane_id : Regex
re_pane_id = seq (literal "w") (seq (plus digit) (seq (literal ":p") (plus upper_or_digit)))

-- `^/Users/user/projects/proj\d+$`
abbrev pub re_path : Regex
re_path = seq (literal "/Users/user/projects/proj") (plus digit)

-- `^term_\d{12}$`
abbrev pub re_terminal_id : Regex
re_terminal_id = seq (literal "term_") (times 12 digit)

-- `^00000000-0000-4000-8000-\d{12}$`
abbrev pub re_session_uuid : Regex
re_session_uuid = seq (literal "00000000-0000-4000-8000-") (times 12 digit)

abbrev pub agent_status_values : List String
agent_status_values = "idle" ∷ "working" ∷ "blocked" ∷ "done" ∷ "unknown" ∷ []

abbrev pub title_values : List String
title_values = "shell" ∷ "agent" ∷ "nvim" ∷ "" ∷ []

-- `{check: c}` and `{required: true, check: c}`
abbrev may : String → Checker → String × FieldSpec
may name c = (name, record { required = false; check = c })

abbrev must : String → Checker → String × FieldSpec
must name c = (name, record { required = true; check = c })

abbrev pub agent_session_schema : ObjectSchema
agent_session_schema =
    may "agent" (enum_string "agent kind" known_agent_kinds)
    ∷ may "kind" type_string
    ∷ may "source" type_string
    ∷ must "value" (pattern "agent_session.value" re_session_uuid)
    ∷ []

abbrev pub scroll_schema : ObjectSchema
scroll_schema =
    may "max_offset_from_bottom" type_number
    ∷ may "offset_from_bottom" type_number
    ∷ may "viewport_rows" type_number
    ∷ []

abbrev pub rect_schema : ObjectSchema
rect_schema =
    may "height" type_number
    ∷ may "width" type_number
    ∷ may "x" type_number
    ∷ may "y" type_number
    ∷ []

abbrev pub layout_pane_schema : ObjectSchema
layout_pane_schema =
    may "focused" type_bool
    ∷ must "pane_id" (pattern "pane_id" re_pane_id)
    ∷ may "rect" (object_of rect_schema)
    ∷ []

abbrev pub split_schema : ObjectSchema
split_schema =
    may "direction" type_string
    ∷ may "id" type_string
    ∷ may "ratio" type_number
    ∷ may "rect" (object_of rect_schema)
    ∷ []

abbrev pub layout_schema : ObjectSchema
layout_schema =
    may "area" (object_of rect_schema)
    ∷ may "focused_pane_id" (pattern "pane_id" re_pane_id)
    ∷ may "panes" (array_of_objects layout_pane_schema)
    ∷ may "splits" (array_of_objects split_schema)
    ∷ must "tab_id" (pattern "tab_id" re_tab_id)
    ∷ must "workspace_id" (pattern "workspace_id" re_workspace_id)
    ∷ may "zoomed" type_bool
    ∷ []

abbrev pub workspace_schema : ObjectSchema
workspace_schema =
    must "workspace_id" (pattern "workspace_id" re_workspace_id)
    ∷ must "label" (pattern "label" re_label)
    ∷ must "agent_status" (nullable_enum_string "agent_status" agent_status_values)
    ∷ may "active_tab_id" (pattern "tab_id" re_tab_id)
    ∷ may "number" type_number
    ∷ may "pane_count" type_number
    ∷ may "tab_count" type_number
    ∷ may "focused" type_bool
    ∷ may "tokens" tokens_field
    ∷ []

abbrev pub agent_schema : ObjectSchema
agent_schema =
    must "workspace_id" (pattern "workspace_id" re_workspace_id)
    ∷ must "agent" (enum_string "agent kind" known_agent_kinds)
    ∷ may "agent_session" (object_of agent_session_schema)
    ∷ must "agent_status" (nullable_enum_string "agent_status" agent_status_values)
    ∷ may "cwd" (pattern "cwd" re_path)
    ∷ may "focused" type_bool
    ∷ may "foreground_cwd" (pattern "foreground_cwd" re_path)
    ∷ may "pane_id" (pattern "pane_id" re_pane_id)
    ∷ may "revision" type_number
    ∷ may "state_change_seq" type_number
    ∷ may "tab_id" (pattern "tab_id" re_tab_id)
    ∷ may "terminal_id" (pattern "terminal_id" re_terminal_id)
    ∷ may "terminal_title" (enum_string "terminal_title" title_values)
    ∷ may "terminal_title_stripped" (enum_string "terminal_title_stripped" title_values)
    ∷ []

abbrev pub tab_schema : ObjectSchema
tab_schema =
    must "agent_status" (nullable_enum_string "agent_status" agent_status_values)
    ∷ may "focused" type_bool
    ∷ must "label" (pattern "label" re_label)
    ∷ may "number" type_number
    ∷ may "pane_count" type_number
    ∷ must "tab_id" (pattern "tab_id" re_tab_id)
    ∷ must "workspace_id" (pattern "workspace_id" re_workspace_id)
    ∷ []

abbrev pub pane_schema : ObjectSchema
pane_schema =
    may "agent" (enum_string "agent kind" known_agent_kinds)
    ∷ may "agent_session" (object_of agent_session_schema)
    ∷ must "agent_status" (nullable_enum_string "agent_status" agent_status_values)
    ∷ may "cwd" (pattern "cwd" re_path)
    ∷ may "focused" type_bool
    ∷ may "foreground_cwd" (pattern "foreground_cwd" re_path)
    ∷ must "pane_id" (pattern "pane_id" re_pane_id)
    ∷ may "revision" type_number
    ∷ may "scroll" (object_of scroll_schema)
    ∷ must "tab_id" (pattern "tab_id" re_tab_id)
    ∷ must "terminal_id" (pattern "terminal_id" re_terminal_id)
    ∷ may "terminal_title" (enum_string "terminal_title" title_values)
    ∷ may "terminal_title_stripped" (enum_string "terminal_title_stripped" title_values)
    ∷ must "workspace_id" (pattern "workspace_id" re_workspace_id)
    ∷ []

abbrev pub snapshot_schema : ObjectSchema
snapshot_schema =
    must "workspaces" (array_of_objects workspace_schema)
    ∷ must "agents" (array_of_objects agent_schema)
    ∷ may "tabs" (array_of_objects tab_schema)
    ∷ may "panes" (array_of_objects pane_schema)
    ∷ may "layouts" (array_of_objects layout_schema)
    ∷ may "focused_pane_id" (pattern "pane_id" re_pane_id)
    ∷ may "focused_tab_id" (pattern "tab_id" re_tab_id)
    ∷ may "focused_workspace_id" (pattern "workspace_id" re_workspace_id)
    ∷ may "protocol" type_number
    ∷ may "version" type_string
    ∷ []

abbrev pub root_schema : ObjectSchema
root_schema =
    must "type" (literal_string "session_snapshot")
    ∷ must "snapshot" (object_of snapshot_schema)
    ∷ may "_comment" type_string
    ∷ []

-- The document once it is decoded.
unfoldable pub validate_document : Json → List Violation
unfolding validate_object
validate_document (object m) = validate_object "$" (entries m) root_schema
validate_document v = addf "$" (root_type (type_name v))

-- `ValidateFixture`
unfoldable pub validate_fixture : String → Result AnyError (List Violation)
unfolding validate_document decode_any
validate_fixture contents = elim (decode_any contents) [
  | ok doc ↦ ok (validate_document doc)
  | err e ↦ err e
]
