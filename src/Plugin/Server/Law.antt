-- ===== src/Plugin/Server/Law.antt =====
-- The sample server does what the documentation of a report says.
use herdr_tokens.Prelude.{
  String, Option, none, some, ◌≡◌, refl, ap, sym, ◌∙◌, if◌then◌else◌, Bool-cases, inl, inr,
}
use herdr_tokens.Prelude.Result.{ok}
use herdr_tokens.Dict.{lookup}
use herdr_tokens.Json.{Fields, text, object, field, no_fields, entries}
use herdr_tokens.Json.Print.{print}
use herdr_tokens.Json.RoundTrip.Whole.{parse-print_line}
use herdr_tokens.Wire.{Snapshot, RpcError}
use herdr_tokens.Wire.Decode.{Decoded, is_field, into_fields, into_error, rpc_error_field}
use herdr_tokens.Client.{Response, response_field, decode_response}
use herdr_tokens.Client.Reports.{token_sent}
use herdr_tokens.Plugin.Herdr.{Asks, IsHerdr}
use herdr_tokens.Plugin.Server.{
  Herdr, replied, result_json, error_json, answer, serve, stored, has_id, held, first_tokens,
  herdr_socket, text_of,
}
use herdr_tokens.Plugin.Server.Storing.{
  after_token, lookup-store_tokens, first_tokens-stored, first_tokens-stored_other,
}

decode_error :
    (id code : String)
    → decode_response (print (error_json id code) "\n")
      ≡ ok (record { result = none; error = some (record { code = code; message = code }) })
unfolding decode_response into_fields response_field is_field into_error rpc_error_field
decode_error id code = rw (parse-print_line (error_json id code) ((tt, (tt, tt)), (tt, tt))) refl

no_error_lem :
    (res : Response) (e : RpcError)
    → ◌≡◌ {A = Decoded Response} (ok res) (ok (record { result = none; error = some e }))
    → res.error ≡ none
    → ⊥
no_error_lem res e h n =
    let same : res ≡ record { result = none; error = some e } = cc in
    let error : res.error ≡ some e = ap (λ (r : Response). r.error) same in cc

-- What the server does with a report.
abbrev served_report : String → String → Fields → Snapshot → Herdr
served_report request id tokens s =
    if has_id id s
    then replied (stored id tokens s)
        (result_json request (object (field "type" (text "ok") no_fields)))
    else replied s (error_json request "workspace_not_found")

serve_report :
    (written id : String) (tokens : Fields) (s : Snapshot) (a : Asks written id tokens)
    → serve written s ≡ served_report (text_of (lookup "id" (entries a.fs))) id tokens s
unfolding serve answer
serve_report written id tokens s a =
    rw (a.is_json) (rw (a.method) (rw (a.has_params) (rw (a.workspace, a.has_tokens) refl)))

after_token-sent : (v old : Option String) → after_token (token_sent (some v)) old ≡ v
after_token-sent none old = refl
after_token-sent (some s) old = refl

pub sample-IsHerdr : IsHerdr herdr_socket held
unfolding stored
sample-IsHerdr = record {
  stores = λ w written id k tokens v res a wrote decodes no_error token.
      let request = text_of (lookup "id" (entries a.fs)) in
      let served = serve_report written id tokens w.session a in
      elim (Bool-cases (has_id id w.session)) [
        | inl there ↦
            rw (served, there)
              (ap (lookup k) (first_tokens-stored id tokens w.session.workspaces there)
                ∙ lookup-store_tokens k tokens (first_tokens id w.session.workspaces)
                ∙ rw token (after_token-sent v (lookup k (first_tokens id w.session.workspaces))))
        | inr gone ↦
            let refused_reply : serve written w.session
                ≡ replied w.session (error_json request "workspace_not_found") =
              served ∙ rw gone refl in
            let reply =
              sym decodes
              ∙ ap (λ (h : Herdr). decode_response h.reply) refused_reply
              ∙ decode_error request "workspace_not_found" in
            absurd (no_error_lem res _ reply no_error)
      ];
  separate = λ w written id j tokens a n.
      let served = serve_report written id tokens w.session a in
      elim (Bool-cases (has_id id w.session)) [
        | inl there ↦
            rw (served, there) (first_tokens-stored_other id j tokens w.session.workspaces n)
        | inr gone ↦ rw (served, gone) refl
      ];
  reply_keeps = λ w j. refl;
  dial_keeps = λ w j. refl;
}
