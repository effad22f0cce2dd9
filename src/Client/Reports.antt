-- ===== src/Client/Reports.antt =====
-- What the line of a report says: ReportWorkspaceMetadata and call of internal/herdrapi/client.go.
use herdr_tokens.Prelude.{ℕ, suc, String, ◌+++◌, Option, none, some, ◌≡◌, refl, ap, ◌∙◌, arith}
use herdr_tokens.Prelude.Int.{ℤ, pos, negsuc}
use herdr_tokens.Prelude.Result.{ok, OkThen}
use herdr_tokens.Dict.{lookup}
use herdr_tokens.Decimal.{itoa}
use herdr_tokens.Json.{Json, Fields, null, number, text, object, field, no_fields, entries}
use herdr_tokens.Json.Parse.{parse}
use herdr_tokens.Json.Marshal.{ordered, ordered_fields, marshal}
use herdr_tokens.Json.Marshal.Lines.{ordered_value, lookup-ordered_fields}
use herdr_tokens.Json.Marshal.OneLine.{IsOneLine}
use herdr_tokens.Derive.{Tokens}
use herdr_tokens.Client.{
  Client, request, request_id, token_fields, format_int, ttl_field, report_params,
}
use herdr_tokens.Client.Requests.{on_wire, lookup-token_fields}
use herdr_tokens.Client.Lines.{request_line, report_params-HasLiterals}

-- A token in a report: a text to set, null to clear.
abbrev pub token_sent : Option (Option String) → Option Json
token_sent none = none
token_sent (some none) = some null
token_sent (some (some s)) = some (text s)

-- A positive ttl, and no other.
abbrev pub ttl_sent : ℤ → Option Json
ttl_sent (pos (suc n)) = some (number (itoa (suc n)))
ttl_sent _ = none

-- The parameters of a report, key by key.
pub record IsReport (id source : String) (toks : Tokens) (ttl : ℤ) (params : Fields) : Type 0 where
  pub tokens : Fields
  pub workspace : lookup "workspace_id" (entries params) ≡ some (text id)
  pub writer : lookup "source" (entries params) ≡ some (text source)
  pub has_tokens : lookup "tokens" (entries params) ≡ some (object tokens)
  pub each_token : (k : String) → lookup k (entries tokens) ≡ token_sent (lookup k toks)
  pub expiry : lookup "ttl_ms" (entries params) ≡ ttl_sent ttl

ttl_field_lem : (ttl : ℤ) → lookup "ttl_ms" (entries (ttl_field ttl)) ≡ ttl_sent ttl
unfolding format_int lookup
ttl_field_lem (pos (suc n)) = ground arith
ttl_field_lem (pos ℕ.zero) = refl
ttl_field_lem (negsuc n) = ground arith

token_sent_lem : (v : Option (Option String)) → ordered_value (on_wire v) ≡ token_sent v
unfolding ordered
token_sent_lem none = refl
token_sent_lem (some none) = refl
token_sent_lem (some (some s)) = refl

ttl_sent-ordered : (ttl : ℤ) → ordered_value (ttl_sent ttl) ≡ ttl_sent ttl
unfolding ordered
ttl_sent-ordered (pos (suc n)) = refl
ttl_sent-ordered (pos ℕ.zero) = refl
ttl_sent-ordered (negsuc n) = refl

lookup-ttl :
    (id source : String) (toks : Tokens) (ttl : ℤ)
    → lookup "ttl_ms" (entries (report_params id source toks ttl)) ≡ ttl_sent ttl
unfolding report_params lookup
lookup-ttl id source toks ttl = ttl_field_lem ttl

report_params-IsReport :
    (id source : String) (toks : Tokens) (ttl : ℤ)
    → IsReport id source toks ttl (ordered_fields (report_params id source toks ttl))
report_params-IsReport id source toks ttl =
    let params = report_params id source toks ttl in
    record {
      tokens = ordered_fields (token_fields toks);
      workspace =
          lookup-ordered_fields "workspace_id" params ∙ unfold report_params lookup ordered in refl;
      writer = lookup-ordered_fields "source" params ∙ unfold report_params lookup ordered in refl;
      has_tokens =
          lookup-ordered_fields "tokens" params ∙ unfold report_params lookup ordered in refl;
      each_token = λ k.
          lookup-ordered_fields k (token_fields toks)
          ∙ ap ordered_value (lookup-token_fields k toks)
          ∙ token_sent_lem (lookup k toks);
      expiry =
          lookup-ordered_fields "ttl_ms" params
          ∙ ap ordered_value (lookup-ttl id source toks ttl)
          ∙ ttl_sent-ordered ttl;
    }

-- The line holds the JSON of a report with that number.
pub record IsReportLine (n : ℕ) (id source : String) (toks : Tokens) (ttl : ℤ) (line : String)
    : Type 0 where
  pub one_line : IsOneLine line
  pub params : Fields
  pub says :
      parse (line +++ "\n")
      ≡ ok (
          object (
            field "id" (text ("herdr-tokens-" +++ itoa n)) (
              field "method"
                (text "workspace.report_metadata")
                (field "params" (object params) no_fields))))
  pub is_report : IsReport id source toks ttl params

-- The request of a report is sent as one line, without a line break inside, and a reader of that line
-- finds the number of the request in its id, the method, and for params the workspace, the source, each
-- token as a text or as null where it is to be cleared and no other token, and the ttl if it is
-- positive.
pub report_line :
    (c : Client) (id source : String) (toks : Tokens) (ttl : ℤ)
    → OkThen
        (marshal
          (request c "workspace.report_metadata" (object (report_params id source toks ttl))))
        (IsReportLine c.seq id source toks ttl)
report_line c id source toks ttl =
    let params = object (report_params id source toks ttl) in
    let (line, (e, (one, p))) =
      request_line c "workspace.report_metadata" params
        (report_params-HasLiterals id source toks ttl) in
    (
      line,
      (
        e,
        record {
          one_line = one;
          params = ordered_fields (report_params id source toks ttl);
          says = p ∙ unfold request request_id ordered in refl;
          is_report = report_params-IsReport id source toks ttl;
        },
      ),
    )
