-- ===== src/Wire/Decode.antt =====
-- `json.Unmarshal` into the structs of internal/herdrapi/types.go: a field is set by the value of its
-- key in any case, the last one if the key is repeated; null leaves a string as it is, and makes a
-- pointer, a map or a list nil; an unknown key is passed over.
pub mod Reading
pub mod Errors
pub mod Unknown
use Prim.Native.String
use herdr_tokens.Prelude.{
  ℕ, ◌-◌, String, codes, Bool, true, false, ◌&&◌, Option, none, some, List, [], ◌∷◌, map, leb,
  nat_eq, if◌then◌else◌,
}
use herdr_tokens.Prelude.Result.{Result, ok, err, ◌>>=◌}
use herdr_tokens.Dict.{Dict, insert}
use herdr_tokens.Json.{
  Json, Items, Fields, null, bool, number, text, array, object, no_items, item, no_fields, field,
}
use herdr_tokens.Json.Parse.{ParseError, syntax, parse}
use herdr_tokens.Wire.{Workspace, Agent, Snapshot, SnapshotResult, RpcError}

pub data DecodeError : Type 0 where
  malformed : ParseError → DecodeError
  mismatch : DecodeError

-- `foldName`: a letter of a key stands for its other cases, the Kelvin sign and the long s included.
abbrev pub folded : ℕ → ℕ
folded n =
    if leb b'a' n && leb n b'z'
    then n - 32
    else if nat_eq n 8490
    then b'K'
    else if nat_eq n 383
    then b'S'
    else n

abbrev same_folded : List ℕ → List ℕ → Bool
same_folded [] [] = true
same_folded [] (d ∷ t) = false
same_folded (c ∷ s) [] = false
same_folded (c ∷ s) (d ∷ t) = nat_eq (folded c) (folded d) && same_folded s t

unfoldable pub is_field : String → String → Bool
is_field name key = same_folded (codes name) (codes key)

abbrev pub Decoded {ℓ} : Type ℓ → Type ℓ
Decoded A = Result DecodeError A

module _ {ℓ} {A : Type ℓ} where
  -- The fields of a struct, one after the other; `step` sets the one that its key names.
  unfoldable pub into_fields : (String → Json → A → Decoded A) → Fields → A → Decoded A
  into_fields step no_fields a = ok a
  into_fields step (field k v fs) a = step k v a >>= λ a'. into_fields step fs a'

  abbrev pub into_struct : (String → Json → A → Decoded A) → Json → A → Decoded A
  into_struct step null a = ok a
  into_struct step (object fs) a = into_fields step fs a
  into_struct step _ a = err mismatch

  unfoldable pub into_items : (Json → Decoded A) → Items → Decoded (List A)
  into_items element no_items = ok []
  into_items element (item v vs) =
      element v >>= λ a. into_items element vs >>= λ rest. ok (a ∷ rest)

  abbrev pub into_list : (Json → Decoded A) → Json → Decoded (List A)
  into_list element null = ok []
  into_list element (array vs) = into_items element vs
  into_list element _ = err mismatch

abbrev pub into_string : Json → String → Decoded String
into_string null old = ok old
into_string (text s) old = ok s
into_string _ old = err mismatch

-- `*string`
abbrev pub into_pointer : Json → Decoded (Option String)
into_pointer null = ok none
into_pointer (text s) = ok (some s)
into_pointer _ = err mismatch

-- `map[string]string`; an entry that is null is the empty text.
unfoldable pub into_entries : Fields → Dict String → Decoded (Dict String)
unfolding insert
into_entries no_fields m = ok m
into_entries (field k v fs) m = into_string v "" >>= λ s. into_entries fs (insert k s m)

abbrev pub into_map : Json → Dict String → Decoded (Dict String)
into_map null m = ok []
into_map (object fs) m = into_entries fs m
into_map _ m = err mismatch

unfoldable pub workspace_field : String → Json → Workspace → Decoded Workspace
unfolding is_field into_entries
workspace_field k v ws =
    if is_field "workspace_id" k
    then into_string v ws.workspace_id >>= (λ s. ok (record ws { workspace_id = s }))
    else if is_field "label" k
    then into_string v ws.label >>= (λ s. ok (record ws { label = s }))
    else if is_field "agent_status" k
    then into_pointer v >>= (λ s. ok (record ws { agent_status = s }))
    else if is_field "tokens" k
    then into_map v ws.tokens >>= (λ m. ok (record ws { tokens = m }))
    else ok ws

unfoldable pub decode_workspace : Json → Decoded Workspace
unfolding into_fields workspace_field
decode_workspace v =
    into_struct workspace_field v
      (record { workspace_id = ""; label = ""; agent_status = none; tokens = [] })

unfoldable pub agent_field : String → Json → Agent → Decoded Agent
unfolding is_field
agent_field k v a =
    if is_field "workspace_id" k
    then into_string v a.workspace_id >>= (λ s. ok (record a { workspace_id = s }))
    else if is_field "agent" k
    then into_string v a.agent >>= (λ s. ok (record a { agent = s }))
    else if is_field "agent_status" k
    then into_pointer v >>= (λ s. ok (record a { agent_status = s }))
    else ok a

unfoldable pub decode_agent : Json → Decoded Agent
unfolding into_fields agent_field
decode_agent v =
    into_struct agent_field v (record { workspace_id = ""; agent = ""; agent_status = none })

unfoldable pub snapshot_field : String → Json → Snapshot → Decoded Snapshot
unfolding is_field into_items decode_workspace decode_agent
snapshot_field k v snap =
    if is_field "workspaces" k
    then into_list decode_workspace v >>= (λ wss. ok (record snap { workspaces = wss }))
    else if is_field "agents" k
    then into_list decode_agent v >>= (λ found. ok (record snap { agents = found }))
    else ok snap

abbrev pub no_snapshot : Snapshot
no_snapshot = record { workspaces = []; agents = [] }

unfoldable pub into_snapshot : Json → Snapshot → Decoded Snapshot
unfolding into_fields snapshot_field
into_snapshot v snap = into_struct snapshot_field v snap

unfoldable pub result_field : String → Json → SnapshotResult → Decoded SnapshotResult
unfolding is_field into_snapshot
result_field k v res =
    if is_field "type" k
    then into_string v res.result_type >>= (λ s. ok (record res { result_type = s }))
    else if is_field "snapshot" k
    then into_snapshot v res.snapshot >>= (λ snap. ok (record res { snapshot = snap }))
    else ok res

-- `var res snapshotResult; json.Unmarshal(raw, &res)`; no text at all is malformed.
unfoldable pub decode_snapshot : Option Json → Decoded SnapshotResult
unfolding into_fields result_field
decode_snapshot none = err (malformed syntax)
decode_snapshot (some v) =
    into_struct result_field v (record { result_type = ""; snapshot = no_snapshot })

unfoldable pub rpc_error_field : String → Json → RpcError → Decoded RpcError
unfolding is_field
rpc_error_field k v e =
    if is_field "code" k
    then into_string v e.code >>= (λ s. ok (record e { code = s }))
    else if is_field "message" k
    then into_string v e.message >>= (λ s. ok (record e { message = s }))
    else ok e

abbrev or_new : Option RpcError → RpcError
or_new none = record { code = ""; message = "" }
or_new (some e) = e

-- `*RPCError`
unfoldable pub into_error : Json → Option RpcError → Decoded (Option RpcError)
unfolding into_fields rpc_error_field
into_error null old = ok none
into_error v old = into_struct rpc_error_field v (or_new old) >>= (λ e. ok (some e))
