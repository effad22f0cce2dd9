-- ===== src/Client.antt =====
-- internal/herdrapi/client.go: one request and one response on one connection. The connection and the
-- context are the fields of `Transport`, over a `World` that each operation of the connection takes
-- and gives. The deadline that a done context forces makes a write or a read fail while `ctx_err` says
-- why; the goroutine that sets it is in Client.Watcher.
pub mod Requests
pub mod Calls
pub mod Replies
pub mod Lines
pub mod Reports
pub mod Ids
pub mod Watcher
pub mod Samples
use herdr_tokens.Prelude.{
  ℕ, ◌+◌, ◌%◌, String, ◌==◌, ◌+++◌, Bool, ◌&&◌, Option, none, some, List, [], ◌∷◌, ◌++◌, is_some,
  if◌then◌else◌,
}
use herdr_tokens.Prelude.Int.{ℤ, pos, negsuc, ltb_ℤ}
use herdr_tokens.Prelude.Result.{Result, ok, err, ◌>>=◌}
use herdr_tokens.Decimal.{itoa}
use herdr_tokens.Json.{Json, null, text, number, object, Fields, field, no_fields}
use herdr_tokens.Json.Parse.{ParseError, parse}
use herdr_tokens.Json.Marshal.{marshal}
use herdr_tokens.Wire.Decode.{
  DecodeError, malformed, Decoded, is_field, into_fields, into_struct, into_error, decode_snapshot,
}
use herdr_tokens.Wire.{Workspace, Snapshot, SnapshotResult, RpcError}
use herdr_tokens.Derive.{Tokens}
use herdr_tokens.Controller.{Reporter}

-- `response`: the raw result, which is a value of its own, `none` if the reply has no such key, and
-- the error.
pub record Response : Type 0 where
  pub result : Option Json
  pub error : Option RpcError

pub record Transport (World : Type 0) : Type 0 where
  pub dial : World → Option String × World
  pub write : String → World → Option String × World
  -- `ReadBytes('\n')`: what was read, and the error.
  pub read_line : World → (String × Option String) × World
  pub ctx_err : World → Option String

pub data CallError : Type 0 where
  dial_failed : String → CallError
  marshal_failed write_failed read_failed cancelled : String → String → CallError
  decode_failed decode_result_failed : String → DecodeError → CallError
  answered : String → RpcError → CallError
  empty_snapshot : CallError

pub record Client : Type 0 where
  pub seq : ℕ

abbrev pub new_client : Client
new_client = record { seq = 0 }

-- `c.seq.Add(1)`
abbrev pub next_seq : Client → Client
next_seq c = record { seq = (c.seq + 1) % 18446744073709551616 }

unfoldable pub request_id : Client → String
request_id c = "herdr-tokens-" +++ itoa c.seq

unfoldable pub request : Client → String → Json → Json
request c method params = object (
    field "id" (text (request_id c))
      (field "method" (text method) (field "params" params no_fields)))

-- `ErrEmptySnapshot`
abbrev pub nonempty : Snapshot → Result CallError Snapshot
nonempty snap = elim snap.workspaces [ [] ↦ err empty_snapshot | _ ∷ _ ↦ ok snap ]

unfoldable pub response_field : String → Json → Response → Decoded Response
unfolding is_field into_error
response_field k v r =
    if is_field "result" k
    then ok (record r { result = some v })
    else if is_field "error" k
    then into_error v r.error >>= (λ e. ok (record r { error = e }))
    else ok r

abbrev pub response_of : Result ParseError Json → Decoded Response
response_of (err e) = err (malformed e)
response_of (ok v) = into_struct response_field v (record { result = none; error = none })

-- `json.Unmarshal(line, &res)`
unfoldable pub decode_response : String → Decoded Response
unfolding parse into_fields response_field
decode_response line = response_of (parse line)

module _ {World : Type 0} (t : Transport World) where
  -- Why a write or a read failed: the context first.
  abbrev blame : String → (String → CallError) → Option String → CallError
  blame method other none = other method
  blame method other (some why) = cancelled method why

  -- The reply's meaning: its raw result, if there is no error in it.
  unfoldable pub understood : String → Decoded Response → Result CallError (Option Json)
  understood method (err e) = err (decode_failed method e)
  understood method (ok res) = elim res.error [
    | some e ↦ err (answered method e)
    | none ↦ ok res.result
  ]

  -- `if err != nil && len(line) == 0`
  unfoldable pub received :
      String → (String × Option String) × World → Result CallError (Option Json) × World
  unfolding understood decode_response
  received method ((line, e), w) =
      if is_some e && line == ""
      then (
        err (blame method (λ m. read_failed m (elim e [ some s ↦ s | none ↦ "" ])) (t.ctx_err w)),
        w,
      )
      else (understood method (decode_response line), w)

  unfoldable pub sent : String → Option String × World → Result CallError (Option Json) × World
  unfolding received
  sent method (some e, w) = (err (blame method (λ m. write_failed m e) (t.ctx_err w)), w)
  sent method (none, w) = received method (t.read_line w)

  unfoldable pub requested :
      String → Result String String → World → Result CallError (Option Json) × World
  unfolding sent
  requested method (err e) w = (err (marshal_failed method e), w)
  requested method (ok line) w = sent method (t.write (line +++ "\n") w)

  unfoldable pub connected :
      String
      → Json
      → Client
      → Option String × World
      → Result CallError (Option Json) × Client × World
  unfolding requested marshal
  connected method params c (some e, w) = (err (dial_failed e), c, w)
  connected method params c (none, w) =
      let c' = next_seq c in
      let (reply, w') = requested method (marshal (request c' method params)) w in (reply, c', w')

  -- `call`, up to the decoding of the result into `out`
  unfoldable pub call :
      String → Json → Client → World → Result CallError (Option Json) × Client × World
  unfolding connected
  call method params c w = connected method params c (t.dial w)

  abbrev pub unwrapped : Result CallError (Option Json) → Result CallError Snapshot
  unwrapped (err e) = err e
  unwrapped (ok raw) = elim (decode_snapshot raw) [
    | err e ↦ err (decode_result_failed "session.snapshot" e)
    | ok res ↦ nonempty res.snapshot
  ]

  -- `Snapshot`
  unfoldable pub snapshot : Client → World → Result CallError Snapshot × Client × World
  unfolding call decode_snapshot
  snapshot c w =
      let (reply, c', w') = call "session.snapshot" (object no_fields) c w in
      (unwrapped reply, c', w')

-- The value of a token on the wire: null clears the key.
abbrev pub token_json : Option String → Json
token_json none = null
token_json (some t) = text t

abbrev pub token_fields : Tokens → Fields
token_fields [] = no_fields
token_fields ((k, v) ∷ rest) = field k (token_json v) (token_fields rest)

-- A number's text.
unfoldable pub format_int : ℤ → String
format_int (pos n) = itoa n
format_int (negsuc n) = "-" +++ itoa (n + 1)

abbrev pub ttl_field : ℤ → Fields
ttl_field ttl =
    if ltb_ℤ (pos 0) ttl then field "ttl_ms" (number (format_int ttl)) no_fields else no_fields

unfoldable pub report_params : String → String → Tokens → ℤ → Fields
unfolding format_int
report_params id source tokens ttl =
    field "workspace_id" (text id)
      (field "source" (text source) (field "tokens" (object (token_fields tokens)) (ttl_field ttl)))

abbrev pub error_of {ℓ} : {A : Type ℓ} → Result CallError A → Option CallError
error_of (ok _) = none
error_of (err e) = some e

-- `ReportWorkspaceMetadata`; the client is the controller's `Reporter`.
unfoldable pub report_metadata :
    {World : Type 0}
    → Transport World
    → String
    → String
    → Tokens
    → ℤ
    → Client × World
    → Option CallError × (Client × World)
unfolding call report_params
report_metadata t id source tokens ttl (c, w) =
    let (reply, c', w') =
      call t "workspace.report_metadata" (object (report_params id source tokens ttl)) c w in
    (error_of reply, (c', w'))

abbrev pub client_reporter :
    {World : Type 0} → Transport World → Reporter (Client × World) CallError
client_reporter t = record { report = report_metadata t }
