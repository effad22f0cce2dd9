-- ===== src/Plugin/Herdr.antt =====
-- The parts together over the socket of a Herdr server, of which only what its documentation says of a
-- report is assumed: internal/daemon/daemon.go, internal/controller/controller.go and
-- internal/herdrapi/client.go down to the lines on the wire.
use herdr_tokens.Prelude.{
  ℕ, String, ◌+++◌, true, Option, none, some, map, ◌≡◌, ◌≢◌, subst, refl, ap, ◌∙◌, arith, All,
  Bool-cases, inl, inr, if◌then◌else◌, is_some,
}
use herdr_tokens.Prelude.Int.{ℤ}
use herdr_tokens.Prelude.Result.{ok}
use herdr_tokens.Dict.{Dict, Distinct, lookup}
use herdr_tokens.Json.{Json, Fields, text, object, entries}
use herdr_tokens.Json.Parse.{parse}
use herdr_tokens.Json.Marshal.{marshal}
use herdr_tokens.Wire.{Workspace, Snapshot}
use herdr_tokens.Derive.{Tokens}
use herdr_tokens.Derive.Tokens.{is_owned}
use herdr_tokens.Controller.{invalidate, reconcile, Controller}
use herdr_tokens.Controller.Matching.{Shows}
use herdr_tokens.Controller.Server.{Server, reconcile-IsShown}
use herdr_tokens.Client.{
  Transport, Client, Response, decode_response, client_reporter, report_metadata, report_params,
  snapshot, next_seq, call, connected, requested, sent, received, request,
}
use herdr_tokens.Client.Reports.{token_sent, IsReportLine, report_line}
use herdr_tokens.Client.Replies.{report_metadata_iff}
use herdr_tokens.Daemon.{Loop, attempted, round}
use herdr_tokens.Plugin.{Tick, tick}

-- What is written is a line of JSON that reports tokens of a workspace.
pub record Asks (written id : String) (tokens : Fields) : Type 0 where
  pub fs : Fields
  pub params : Fields
  pub is_json : parse written ≡ ok (object fs)
  pub method : lookup "method" (entries fs) ≡ some (text "workspace.report_metadata")
  pub has_params : lookup "params" (entries fs) ≡ some (object params)
  pub workspace : lookup "workspace_id" (entries params) ≡ some (text id)
  pub has_tokens : lookup "tokens" (entries params) ≡ some (object tokens)

-- What the documentation of `workspace.report_metadata` says, where `held` is what the server holds for
-- a workspace: a report that it answers without an error sets the tokens that have a text and clears
-- those that are null; no report touches another workspace; and a connection or a reply changes
-- nothing. A report may be refused.
pub record IsHerdr {World : Type 0} (t : Transport World) (held : World → String → Dict String)
    : Type 0 where
  pub stores :
      (w : World) (written id k : String) (tokens : Fields) (v : Option String) (res : Response)
      → Asks written id tokens
      → (t.write written w).0 ≡ none
      → decode_response (t.read_line (t.write written w).1).0.0 ≡ ok res
      → res.error ≡ none
      → lookup k (entries tokens) ≡ token_sent (some v)
      → lookup k (held (t.write written w).1 id) ≡ v
  pub separate :
      (w : World) (written id j : String) (tokens : Fields)
      → Asks written id tokens
      → j ≢ id
      → held (t.write written w).1 j ≡ held w j
  pub reply_keeps : (w : World) (j : String) → held (t.read_line w).1 j ≡ held w j
  pub dial_keeps : (w : World) (j : String) → held (t.dial w).1 j ≡ held w j

module _ {World : Type 0} (t : Transport World) (held : World → String → Dict String)
    (law : IsHerdr t held) where
  abbrev written_to : String → World → Option String × World
  written_to line w = t.write (line +++ "\n") (t.dial w).1

  call-world :
      (method line : String) (params : Json) (c : Client) (w : World)
      → marshal (request (next_seq c) method params) ≡ ok line
      → (call t method params c w).2 ≡ (
          if is_some (t.dial w).0
          then (t.dial w).1
          else if is_some (written_to line w).0
          then (written_to line w).1
          else (t.read_line (written_to line w).1).1)
  unfolding call connected requested sent received
  call-world method line params c w m = ground (arith, m)

  line-Asks :
      (n : ℕ) (id src line : String) (toks : Tokens) (ttl : ℤ)
      (l : IsReportLine n id src toks ttl line)
      → Asks (line +++ "\n") id l.is_report.tokens
  unfolding lookup
  line-Asks n id src line toks ttl l = record {
    fs = _;
    params = l.params;
    is_json = l.says;
    method = refl;
    has_params = refl;
    workspace = l.is_report.workspace;
    has_tokens = l.is_report.has_tokens;
  }

  report-world :
      (id src line : String) (toks : Tokens) (ttl : ℤ) (p : Client × World)
      → marshal (
          request
            (next_seq p.0)
            "workspace.report_metadata"
            (object (report_params id src toks ttl)))
        ≡ ok line
      → (report_metadata t id src toks ttl p).1.1 ≡ (
          if is_some (t.dial p.1).0
          then (t.dial p.1).1
          else if is_some (written_to line p.1).0
          then (written_to line p.1).1
          else (t.read_line (written_to line p.1).1).1)
  unfolding report_metadata
  report-world id src line toks ttl (c, w) m =
      call-world "workspace.report_metadata" line (object (report_params id src toks ttl)) c w m

  report_stores :
      (id src : String) (toks : Tokens) (ttl : ℤ) (p : Client × World) (k : String)
      (v : Option String)
      → (report_metadata t id src toks ttl p).0 ≡ none
      → lookup k toks ≡ some v
      → lookup k (held (report_metadata t id src toks ttl p).1.1 id) ≡ v
  report_stores id src toks ttl (c, w) k v h found =
      let a = (report_metadata_iff t id src toks ttl c w).0 h in
      let r = a.replied in
      let is_line = a.line in
      let token = is_line.is_report.each_token k ∙ ap token_sent found in
      rw (report-world id src r.line toks ttl (c, w) r.marshals, r.connects, r.writes)
        (ap (lookup k) (law.reply_keeps (written_to r.line w).1 id)
          ∙ law.stores (t.dial w).1 (r.line +++ "\n") id k is_line.is_report.tokens v r.response
              (line-Asks _ id src r.line toks ttl is_line) r.writes r.decodes r.no_error token)

  report_separate :
      (id src : String) (toks : Tokens) (ttl : ℤ) (p : Client × World) (j : String)
      → j ≢ id
      → held (report_metadata t id src toks ttl p).1.1 j ≡ held p.1 j
  report_separate id src toks ttl (c, w) j n =
      let (line, (m, is_line)) = report_line (next_seq c) id src toks ttl in
      let dialled = law.dial_keeps w j in
      let wrote =
        law.separate (t.dial w).1 (line +++ "\n") id j is_line.is_report.tokens
          (line-Asks _ id src line toks ttl is_line) n in
      rw (report-world id src line toks ttl (c, w) m) (elim (Bool-cases (is_some (t.dial w).0)) [
        | inl failed ↦ rw failed dialled
        | inr connects ↦ elim (Bool-cases (is_some (written_to line w).0)) [
          | inl failed ↦ rw (connects, failed) (wrote ∙ dialled)
          | inr writes ↦
              rw (connects, writes) (law.reply_keeps (written_to line w).1 j ∙ wrote ∙ dialled)
        ]
      ])

  -- Over such a socket the client is a reporter to a server that stores what it accepts.
  client-Server : Server (client_reporter t) (λ p. held p.1)
  client-Server = record { stores = report_stores; separate = report_separate }

-- The controller that a round goes on with.
abbrev pub round_controller : {World : Type 0} → Loop World → Controller
round_controller s = if s.saw_failure then invalidate s.ctrl else s.ctrl

-- A pass with a snapshot writes without an error.
abbrev pub IsAccepted :
    {World : Type 0} → Transport World → Controller → Snapshot → ℤ → Client × World → Type 0
IsAccepted t c snap now p = (reconcile (client_reporter t) c snap now p).0.1 ≡ none

module _ {World : Type 0} (t : Transport World) (held : World → String → Dict String) where
  -- What the server holds is what the workspaces of a session should show.
  abbrev pub AllShown : Snapshot → String → World → Type 0
  AllShown snap mode w =
      All (λ ws. Shows ws snap.agents mode (held w ws.workspace_id)) snap.workspaces

  -- Of the owned tokens the session says what the server holds.
  abbrev pub IsTrue : Snapshot → World → Type 0
  IsTrue snap w =
      All
        (λ ws.
          (k : String) → is_owned k ≡ true → lookup k ws.tokens ≡ lookup k (held w ws.workspace_id))
        snap.workspaces

  pass-AllShown :
      (law : IsHerdr t held) (c : Controller) (snap : Snapshot) (now : ℤ) (p : Client × World)
      → Distinct (map (λ (ws : Workspace). ws.workspace_id) snap.workspaces)
      → IsTrue snap p.1
      → IsAccepted t c snap now p
      → AllShown snap c.cfg.value (reconcile (client_reporter t) c snap now p).2.1
  pass-AllShown law c snap now p u current fine =
      reconcile-IsShown (client_reporter t) (λ p. held p.1) (client-Server t held law) c snap now p
        u current fine

round_controller-cfg : {World : Type 0} (s : Loop World) → (round_controller s).cfg ≡ s.ctrl.cfg
round_controller-cfg s = elim (Bool-cases s.saw_failure) [
  | inl failed ↦ rw failed refl
  | inr fine ↦ rw fine refl
]

-- A tick over the socket of a server that does what the documentation of a report says, with a snapshot
-- that says what the server holds and in which no workspace stands twice: if the server refuses none of the reports that the tick makes, it then holds
-- for each workspace of the snapshot every owned token as it should be, whatever the loop and the
-- controller remember and whatever failed before.
pub tick-AllShown :
    {World : Type 0} (t : Transport World) (held : World → String → Dict String) (base most : ℤ)
    (env : Tick) (s : Loop (Client × World)) (snap : Snapshot)
    → IsHerdr t held
    → (snapshot t s.world.0 s.world.1).0 ≡ ok snap
    → Distinct (map (λ (ws : Workspace). ws.workspace_id) snap.workspaces)
    → IsTrue t held snap (snapshot t s.world.0 s.world.1).2
    → IsAccepted t
        (round_controller s)
        snap
        env.now
        ((snapshot t s.world.0 s.world.1).1, (snapshot t s.world.0 s.world.1).2)
    → AllShown t held snap s.ctrl.cfg.value (tick t base most env s).1.world.1
unfolding tick attempted round
tick-AllShown t held base most env s snap law got u current fine = rw got (
    subst
      (λ cfg.
        AllShown t held snap cfg.value
          (reconcile (client_reporter t) (round_controller s) snap env.now
            ((snapshot t s.world.0 s.world.1).1, (snapshot t s.world.0 s.world.1).2)).2.1)
      (round_controller-cfg s)
      (pass-AllShown t held law (round_controller s) snap env.now
        ((snapshot t s.world.0 s.world.1).1, (snapshot t s.world.0 s.world.1).2) u current fine))
