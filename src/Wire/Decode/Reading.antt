-- ===== src/Wire/Decode/Reading.antt =====
-- What a server writes for a session is read as that session.
use mathlib.Core.List.{append-nil, append_assoc}
use herdr_tokens.Prelude.{
  subst, String, eq_iff, Option, none, some, List, [], ◌∷◌, ◌++◌, ◌≡◌, ◌≢◌, refl, ap, sym, ◌∙◌,
  arith, All,
}
use herdr_tokens.Prelude.Result.{ok}
use herdr_tokens.Dict.{Dict, insert, keys, HasDistinctKeys}
use herdr_tokens.Json.{
  Json, Items, Fields, null, text, array, object, no_items, item, no_fields, field,
}
use herdr_tokens.Wire.{Workspace, Agent, Snapshot, SnapshotResult}
use herdr_tokens.Wire.Decode.{
  Decoded, into_fields, into_items, into_pointer, into_entries, into_map, is_field, workspace_field,
  decode_workspace, agent_field, decode_agent, snapshot_field, into_snapshot, result_field,
  decode_snapshot, no_snapshot,
}

-- A nullable string on the wire.
abbrev pub nullable_json : Option String → Json
nullable_json none = null
nullable_json (some s) = text s

abbrev pub string_fields : Dict String → Fields
string_fields [] = no_fields
string_fields ((k, s) ∷ m) = field k (text s) (string_fields m)

-- A workspace without tokens has null for them.
abbrev pub tokens_json : Dict String → Json
tokens_json [] = null
tokens_json ((k, s) ∷ m) = object (string_fields ((k, s) ∷ m))

abbrev pub workspace_json : Workspace → Json
workspace_json ws = object (
    field "agent_status" (nullable_json ws.agent_status) (
      field "label" (text ws.label) (
        field "tokens" (tokens_json ws.tokens)
          (field "workspace_id" (text ws.workspace_id) no_fields))))

abbrev pub agent_json : Agent → Json
agent_json a = object (
    field "agent" (text a.agent) (
      field "agent_status" (nullable_json a.agent_status)
        (field "workspace_id" (text a.workspace_id) no_fields)))

abbrev pub items_of {ℓ} : {A : Type ℓ} → (A → Json) → List A → Items
items_of f [] = no_items
items_of f (a ∷ rest) = item (f a) (items_of f rest)

abbrev pub snapshot_json : Snapshot → Json
snapshot_json snap = object (
    field "agents" (array (items_of agent_json snap.agents))
      (field "workspaces" (array (items_of workspace_json snap.workspaces)) no_fields))

-- The result of session.snapshot, with the payload nested.
abbrev pub envelope : SnapshotResult → Json
envelope res =
    object (
      field "snapshot" (snapshot_json res.snapshot) (field "type" (text res.result_type) no_fields))

insert-append :
    (k s : String) (m : Dict String) → All (λ j. j ≢ k) (keys m) → insert k s m ≡ m ++ ((k, s) ∷ [])
unfolding insert
insert-append k s [] h = refl
insert-append k s ((j, t) ∷ m) (n, h) = ground (arith, eq_iff j k, insert-append k s m h)

All-middle {ℓ} :
    (P : String → Type ℓ) (k s : String) (m acc : Dict String)
    → All P (keys (acc ++ ((k, s) ∷ m)))
    → P k
All-middle P k s m [] (p, ps) = p
All-middle P k s m ((j, t) ∷ acc) (p, ps) = All-middle P k s m acc ps

-- A key that stands later in different keys stands nowhere earlier.
absent_before :
    (k s : String) (m acc : Dict String)
    → HasDistinctKeys (acc ++ ((k, s) ∷ m))
    → All (λ j. j ≢ k) (keys acc)
absent_before k s m [] h = tt
absent_before k s m ((j, t) ∷ acc) (n, h) =
    (λ e. All-middle (λ i. i ≢ j) k s m acc n (sym e), absent_before k s m acc h)

into_entries-string_fields :
    (m acc : Dict String)
    → HasDistinctKeys (acc ++ m)
    → into_entries (string_fields m) acc ≡ ok (acc ++ m)
unfolding into_entries
into_entries-string_fields [] acc h = ap ok (sym (append-nil acc))
into_entries-string_fields ((k, s) ∷ m) acc h =
    let same : (acc ++ ((k, s) ∷ [])) ++ m ≡ acc ++ ((k, s) ∷ m) =
      append_assoc acc ((k, s) ∷ []) m in
    rw (insert-append k s acc (absent_before k s m acc h)) (
      into_entries-string_fields m (acc ++ ((k, s) ∷ [])) (subst HasDistinctKeys (sym same) h)
      ∙ ap ok same)

read_pointer : (s : Option String) → into_pointer (nullable_json s) ≡ ok s
read_pointer none = refl
read_pointer (some s) = refl

read_tokens : (m : Dict String) → HasDistinctKeys m → into_map (tokens_json m) [] ≡ ok m
read_tokens [] h = refl
read_tokens ((k, s) ∷ m) h = into_entries-string_fields ((k, s) ∷ m) [] h

read_workspace :
    (ws : Workspace) → HasDistinctKeys ws.tokens → decode_workspace (workspace_json ws) ≡ ok ws
unfolding decode_workspace into_fields workspace_field is_field
read_workspace ws h = rw (read_pointer ws.agent_status) (rw (read_tokens ws.tokens h) refl)

read_agent : (a : Agent) → decode_agent (agent_json a) ≡ ok a
unfolding decode_agent into_fields agent_field is_field
read_agent a = rw (read_pointer a.agent_status) refl

into_items-items_of {ℓ κ} :
    {A : Type ℓ} (P : A → Type κ) (element : Json → Decoded A) (f : A → Json)
    → ((a : A) → P a → element (f a) ≡ ok a)
    → (xs : List A) → All P xs
    → into_items element (items_of f xs) ≡ ok xs
unfolding into_items
into_items-items_of P element f h [] ps = refl
into_items-items_of P element f h (x ∷ xs) (p, ps) =
    rw (h x p) (rw (into_items-items_of P element f h xs ps) refl)

All-trivial {ℓ} : {A : Type ℓ} (xs : List A) → All (λ _. Unit {0}) xs
All-trivial [] = tt
All-trivial (x ∷ xs) = (tt, All-trivial xs)

read_snapshot :
    (snap : Snapshot)
    → All (λ (ws : Workspace). HasDistinctKeys ws.tokens) snap.workspaces
    → into_snapshot (snapshot_json snap) no_snapshot ≡ ok snap
unfolding into_snapshot into_fields snapshot_field is_field
read_snapshot snap h =
    rw
      (into_items-items_of (λ _. Unit {0}) decode_agent agent_json (λ a _. read_agent a) snap.agents
        (All-trivial snap.agents))
      (rw (into_items-items_of _ decode_workspace workspace_json read_workspace snap.workspaces h)
        refl)

-- What a server writes for a session, with the payload nested and null for no tokens, is decoded to
-- that session; and the same text decoded as the payload itself gives an empty session, without an
-- error.
pub decode_snapshot-envelope :
    (res : SnapshotResult)
    → All (λ (ws : Workspace). HasDistinctKeys ws.tokens) res.snapshot.workspaces
    → (decode_snapshot (some (envelope res)) ≡ ok res)
      × (into_snapshot (envelope res) no_snapshot ≡ ok no_snapshot)
unfolding decode_snapshot into_snapshot into_fields result_field snapshot_field is_field
decode_snapshot-envelope res h = (rw (read_snapshot res.snapshot h) refl, refl)
