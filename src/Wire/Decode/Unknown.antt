-- ===== src/Wire/Decode/Unknown.antt =====
-- Keys that name no field play no part, at any depth of a reply.
use herdr_tokens.Prelude.{
  String, Bool, true, false, ◌||◌, some, ◌≡◌, refl, ap, sym, fun_ext, ◌∙◌, arith, if◌then◌else◌,
  Bool-cases, inl, inr, All,
}
use herdr_tokens.Prelude.Result.{ok, ◌>>=◌}
use herdr_tokens.Dict.{HasDistinctKeys}
use herdr_tokens.Json.{
  Json, Items, Fields, null, bool, number, text, array, object, no_items, item, no_fields, field,
}
use herdr_tokens.Wire.{Workspace, Agent, Snapshot, SnapshotResult}
use herdr_tokens.Wire.Decode.{
  Decoded, is_field, into_fields, into_struct, into_items, into_list, workspace_field,
  decode_workspace, agent_field, decode_agent, snapshot_field, into_snapshot, result_field,
  decode_snapshot, no_snapshot,
}
use herdr_tokens.Wire.Decode.Reading.{envelope, decode_snapshot-envelope}

-- The fields whose keys are known, with what is trimmed in their values.
abbrev pub trim_fields : (String → Bool) → (String → Json → Json) → Fields → Fields
trim_fields known inner no_fields = no_fields
trim_fields known inner (field k v fs) =
    let rest = trim_fields known inner fs in if known k then field k (inner k v) rest else rest

abbrev pub trim_object : (String → Bool) → (String → Json → Json) → Json → Json
trim_object known inner (object fs) = object (trim_fields known inner fs)
trim_object known inner v = v

abbrev pub trim_items : (Json → Json) → Items → Items
trim_items trim no_items = no_items
trim_items trim (item v vs) = item (trim v) (trim_items trim vs)

abbrev pub trim_list : (Json → Json) → Json → Json
trim_list trim (array vs) = array (trim_items trim vs)
trim_list trim v = v

abbrev pub untouched : String → Json → Json
untouched k v = v

abbrev pub trim_workspace : Json → Json
trim_workspace =
    trim_object
      (λ k.
        is_field "workspace_id" k
        || is_field "label" k
        || is_field "agent_status" k
        || is_field "tokens" k)
      untouched

abbrev pub trim_agent : Json → Json
trim_agent =
    trim_object (λ k. is_field "workspace_id" k || is_field "agent" k || is_field "agent_status" k)
      untouched

abbrev pub in_snapshot : String → Json → Json
in_snapshot k v =
    if is_field "workspaces" k then trim_list trim_workspace v else trim_list trim_agent v

abbrev pub trim_snapshot : Json → Json
trim_snapshot = trim_object (λ k. is_field "workspaces" k || is_field "agents" k) in_snapshot

abbrev pub in_result : String → Json → Json
in_result k v = if is_field "type" k then v else trim_snapshot v

abbrev pub trim_result : Json → Json
trim_result = trim_object (λ k. is_field "type" k || is_field "snapshot" k) in_result

module _ {ℓ} {A : Type ℓ} (step : String → Json → A → Decoded A) (known : String → Bool)
    (inner : String → Json → Json)
    (passes : (k : String) (v : Json) (a : A) → known k ≡ false → step k v a ≡ ok a)
    (trims : (k : String) (v : Json) (a : A)
      → known k ≡ true
      → step k (inner k v) a ≡ step k v a) where
  into_fields-trim_fields :
      (fs : Fields) (a : A)
      → into_fields step (trim_fields known inner fs) a ≡ into_fields step fs a
  unfolding into_fields
  into_fields-trim_fields no_fields a = refl
  into_fields-trim_fields (field k v fs) a = elim (Bool-cases (known k)) [
    | inl yes_known ↦ rw yes_known (
        rw (trims k v a yes_known)
          (ap (λ next. step k v a >>= next) (fun_ext (λ a'. into_fields-trim_fields fs a'))))
    | inr unknown ↦ rw unknown (rw (passes k v a unknown) (into_fields-trim_fields fs a))
  ]

  into_struct-trim_object :
      (v : Json) (a : A) → into_struct step (trim_object known inner v) a ≡ into_struct step v a
  into_struct-trim_object null a = refl
  into_struct-trim_object (bool b) a = refl
  into_struct-trim_object (number n) a = refl
  into_struct-trim_object (text s) a = refl
  into_struct-trim_object (array vs) a = refl
  into_struct-trim_object (object fs) a = into_fields-trim_fields fs a

module _ {ℓ} {A : Type ℓ} (element : Json → Decoded A) (trim : Json → Json)
    (same : (v : Json) → element (trim v) ≡ element v) where
  into_items-trim_items :
      (vs : Items) → into_items element (trim_items trim vs) ≡ into_items element vs
  unfolding into_items
  into_items-trim_items no_items = refl
  into_items-trim_items (item v vs) = rw (same v, into_items-trim_items vs) refl

  into_list-trim_list : (v : Json) → into_list element (trim_list trim v) ≡ into_list element v
  into_list-trim_list null = refl
  into_list-trim_list (bool b) = refl
  into_list-trim_list (number n) = refl
  into_list-trim_list (text s) = refl
  into_list-trim_list (array vs) = into_items-trim_items vs
  into_list-trim_list (object fs) = refl

workspace_passes :
    (k : String) (v : Json) (ws : Workspace)
    → (is_field "workspace_id" k
        || is_field "label" k
        || is_field "agent_status" k
        || is_field "tokens" k)
      ≡ false
    → workspace_field k v ws ≡ ok ws
unfolding workspace_field
workspace_passes k v ws h = ground arith

decode-trim_workspace : (v : Json) → decode_workspace (trim_workspace v) ≡ decode_workspace v
unfolding decode_workspace
decode-trim_workspace v =
    into_struct-trim_object workspace_field _ untouched workspace_passes (λ k v a h. refl) v _

agent_passes :
    (k : String) (v : Json) (a : Agent)
    → (is_field "workspace_id" k || is_field "agent" k || is_field "agent_status" k) ≡ false
    → agent_field k v a ≡ ok a
unfolding agent_field
agent_passes k v a h = ground arith

decode-trim_agent : (v : Json) → decode_agent (trim_agent v) ≡ decode_agent v
unfolding decode_agent
decode-trim_agent v =
    into_struct-trim_object agent_field _ untouched agent_passes (λ k v a h. refl) v _

snapshot_passes :
    (k : String) (v : Json) (snap : Snapshot)
    → (is_field "workspaces" k || is_field "agents" k) ≡ false
    → snapshot_field k v snap ≡ ok snap
unfolding snapshot_field
snapshot_passes k v snap h = ground arith

snapshot_trims :
    (k : String) (v : Json) (snap : Snapshot)
    → (is_field "workspaces" k || is_field "agents" k) ≡ true
    → snapshot_field k (in_snapshot k v) snap ≡ snapshot_field k v snap
unfolding snapshot_field
snapshot_trims k v snap h =
    let wss = into_list-trim_list decode_workspace trim_workspace decode-trim_workspace v in
    let ags = into_list-trim_list decode_agent trim_agent decode-trim_agent v in
    elim (Bool-cases (is_field "workspaces" k)) [
      | inl is ↦ rw is (rw wss refl)
      | inr other ↦ rw other (rw ags refl)
    ]

into_snapshot-trim :
    (v : Json) (snap : Snapshot) → into_snapshot (trim_snapshot v) snap ≡ into_snapshot v snap
unfolding into_snapshot
into_snapshot-trim v snap =
    into_struct-trim_object snapshot_field _ in_snapshot snapshot_passes snapshot_trims v snap

result_passes :
    (k : String) (v : Json) (res : SnapshotResult)
    → (is_field "type" k || is_field "snapshot" k) ≡ false
    → result_field k v res ≡ ok res
unfolding result_field
result_passes k v res h = ground arith

result_trims :
    (k : String) (v : Json) (res : SnapshotResult)
    → (is_field "type" k || is_field "snapshot" k) ≡ true
    → result_field k (in_result k v) res ≡ result_field k v res
unfolding result_field
result_trims k v res h = elim (Bool-cases (is_field "type" k)) [
  | inl is ↦ rw is refl
  | inr other ↦ rw other (rw (into_snapshot-trim v res.snapshot) refl)
]

decode-trim_result : (v : Json) → decode_snapshot (some (trim_result v)) ≡ decode_snapshot (some v)
unfolding decode_snapshot
decode-trim_result v =
    into_struct-trim_object result_field _ in_result result_passes result_trims v _

-- A reply's result that says of a session, with its keys in order and any other keys between them at
-- any depth, its ids, labels, statuses, tokens and agents, with the payload nested and null for no
-- tokens, is decoded to that session; and the same session's result decoded as the payload itself gives an empty session without
-- an error.
pub decode_snapshot-session :
    (v : Json) (res : SnapshotResult)
    → All (λ (ws : Workspace). HasDistinctKeys ws.tokens) res.snapshot.workspaces
    → trim_result v ≡ envelope res
    → (decode_snapshot (some v) ≡ ok res)
      × (into_snapshot (envelope res) no_snapshot ≡ ok no_snapshot)
decode_snapshot-session v res h e =
    let (decodes, misread) = decode_snapshot-envelope res h in
    (sym (decode-trim_result v) ∙ ap (λ x. decode_snapshot (some x)) e ∙ decodes, misread)
