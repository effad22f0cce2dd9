-- ===== src/Plugin/Server.antt =====
-- A server to try the parts on, after what the program's comments say of Herdr: one reply for each
-- request line, session.snapshot with its payload nested, and workspace.report_metadata that sets the
-- tokens with a value and clears those with null. It is no part of the program, and no theorem about the
-- program is about it.
pub mod Storing
pub mod Law
use herdr_tokens.Prelude.{
  String, ◌==◌, Bool, true, false, not, Option, none, some, List, [], ◌∷◌, map, any, if◌then◌else◌,
}
use herdr_tokens.Prelude.Result.{Result, ok, err}
use herdr_tokens.Dict.{Dict, lookup, insert, retain}
use herdr_tokens.Json.{Json, Fields, null, text, object, field, no_fields, entries}
use herdr_tokens.Json.Print.{print}
use herdr_tokens.Json.Parse.{ParseError, parse}
use herdr_tokens.Wire.{Workspace, Snapshot, SnapshotResult}
use herdr_tokens.Wire.Decode.Reading.{envelope}
use herdr_tokens.Client.{Transport}

-- The session, and the reply that is to be read.
pub record Herdr : Type 0 where
  pub session : Snapshot
  pub reply : String

abbrev pub fields_of : Option Json → Fields
fields_of (some (object fs)) = fs
fields_of _ = no_fields

abbrev pub text_of : Option Json → String
text_of (some (text s)) = s
text_of _ = ""

-- One token that a report sets or clears.
abbrev pub store_token : String → Json → Dict String → Dict String
store_token k (text s) m = insert k s m
store_token k _ m = retain (λ j. not (j == k)) m

unfoldable pub store_tokens : Fields → Dict String → Dict String
unfolding insert retain
store_tokens no_fields m = m
store_tokens (field k v fs) m = store_token k v (store_tokens fs m)

abbrev pub store_in : String → Fields → Workspace → Workspace
store_in id tokens ws = record ws {
  tokens = if ws.workspace_id == id then store_tokens tokens ws.tokens else ws.tokens;
}

unfoldable pub stored : String → Fields → Snapshot → Snapshot
unfolding store_tokens
stored id tokens s = record s { workspaces = map (store_in id tokens) s.workspaces }

abbrev pub has_id : String → Snapshot → Bool
has_id id s = any (λ ws. ws.workspace_id == id) s.workspaces

abbrev pub result_json : String → Json → Json
result_json id result = object (field "id" (text id) (field "result" result no_fields))

abbrev pub error_json : String → String → Json
error_json id code = object (
    field "error" (object (field "code" (text code) (field "message" (text code) no_fields)))
      (field "id" (text id) no_fields))

abbrev pub replied : Snapshot → Json → Herdr
replied s v = record { session = s; reply = print v "\n" }

abbrev reported : String → Fields → Snapshot → Herdr
reported id params s =
    let ws = text_of (lookup "workspace_id" (entries params)) in
    if has_id ws s
    then replied (stored ws (fields_of (lookup "tokens" (entries params))) s)
        (result_json id (object (field "type" (text "ok") no_fields)))
    else replied s (error_json id "workspace_not_found")

-- What the server does with a request.
unfoldable pub answer : Fields → Snapshot → Herdr
unfolding lookup stored print
answer fs s =
    let id = text_of (lookup "id" (entries fs)) in
    let method = text_of (lookup "method" (entries fs)) in
    if method == "session.snapshot"
    then replied s
        (result_json id (envelope (record { result_type = "session_snapshot"; snapshot = s })))
    else if method == "workspace.report_metadata"
    then reported id (fields_of (lookup "params" (entries fs))) s
    else replied s (error_json id "unknown_method")

abbrev served : Result ParseError Json → Snapshot → Herdr
served (ok (object fs)) s = answer fs s
served _ s = replied s (error_json "" "invalid_request")

unfoldable pub serve : String → Snapshot → Herdr
unfolding parse answer
serve line s = served (parse line) s

-- The socket of the server: it takes every connection and every line.
abbrev pub herdr_socket : Transport Herdr
herdr_socket = record {
  dial = λ w. (none, w);
  write = λ line w. (none, serve line w.session);
  read_line = λ w. ((w.reply, none), w);
  ctx_err = λ w. none;
}

-- The tokens that the server holds for a workspace.
abbrev pub first_tokens : String → List Workspace → Dict String
first_tokens id [] = []
first_tokens id (ws ∷ wss) = if ws.workspace_id == id then ws.tokens else first_tokens id wss

abbrev pub held : Herdr → String → Dict String
held w id = first_tokens id w.session.workspaces
