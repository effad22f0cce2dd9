-- ===== src/Wire.antt =====
-- internal/herdrapi/types.go: what a session snapshot says. A nullable string is an `Option`; the
-- nil map that a null `tokens` decodes to reads like the empty one.
pub mod Decode
pub mod Samples
use herdr_tokens.Prelude.{String, Option, List, ◌+++◌}
use herdr_tokens.Dict.{Dict}

pub record Workspace : Type 0 where
  pub workspace_id : String
  pub label : String
  pub agent_status : Option String
  pub tokens : Dict String

pub record Agent : Type 0 where
  pub workspace_id : String
  pub agent : String
  pub agent_status : Option String

pub record Snapshot : Type 0 where
  pub workspaces : List Workspace
  pub agents : List Agent

-- The `result` object of session.snapshot: the payload is nested.
pub record SnapshotResult : Type 0 where
  pub result_type : String
  pub snapshot : Snapshot

pub record RpcError : Type 0 where
  pub code : String
  pub message : String

-- `(*RPCError).Error`
abbrev pub error_text : RpcError → String
error_text e = e.code +++ ": " +++ e.message
