-- ===== src/Client/Replies.antt =====
-- When `Snapshot` and `ReportWorkspaceMetadata` succeed, and what a snapshot that is handed on holds.
use herdr_tokens.Prelude.{
  ◌+◌, ◌%◌, sym, subst, ◌∙◌, String, Option, none, [], ◌≡◌, ◌≢◌, ◌↔◌, ◌⊎◌, refl, arith, inl, inr,
}
use herdr_tokens.Prelude.Int.{ℤ}
use herdr_tokens.Prelude.Result.{Result, ok, err}
use herdr_tokens.Wire.Decode.{DecodeError, Decoded, decode_snapshot}
use herdr_tokens.Json.{Json, object, no_fields}
use herdr_tokens.Wire.{Snapshot, SnapshotResult}
use herdr_tokens.Derive.{Tokens}
use herdr_tokens.Client.{
  Transport, CallError, Client, call, nonempty, unwrapped, snapshot, report_params, report_metadata,
  error_of, next_seq,
}
use herdr_tokens.Client.Calls.{Replied, call_iff}
use herdr_tokens.Client.Reports.{IsReportLine, report_line}

nonempty_iff : (s snap : Snapshot) → (nonempty s ≡ ok snap) ↔ ((s ≡ snap) × (snap.workspaces ≢ []))
nonempty_iff s snap = ground arith

module _ {World : Type 0} (t : Transport World) where
  Result-cases :
      (r : Decoded SnapshotResult)
      → ((e : DecodeError) × (r ≡ err e)) ⊎ ((res : SnapshotResult) × (r ≡ ok res))
  Result-cases (ok res) = inr (res, refl)
  Result-cases (err e) = inl (e, refl)

  unwrapped_ok :
      (raw : Option Json) (snap : Snapshot)
      → unwrapped t (ok raw) ≡ ok snap
      → (raw' : Option Json) × (◌≡◌ {A = Result CallError (Option Json)} (ok raw) (ok raw'))
        × (res : SnapshotResult) × (decode_snapshot raw' ≡ ok res)
        × (nonempty res.snapshot ≡ ok snap)
  unwrapped_ok raw snap h = elim (Result-cases (decode_snapshot raw)) [
    | inl (e, d) ↦ cc (rw (d, unwrapped) at h)
    | inr (res, d) ↦ (raw, refl, res, d, rw (d, unwrapped) at h)
  ]

  unwrapped_iff :
      (r : Result CallError (Option Json)) (snap : Snapshot)
      → (unwrapped t r ≡ ok snap) ↔ (
          (raw : Option Json) × (r ≡ ok raw)
          × (res : SnapshotResult) × (decode_snapshot raw ≡ ok res)
          × (nonempty res.snapshot ≡ ok snap))
  unwrapped_iff (err e) snap = ((λ h. cc), λ (raw, e', _, _, _). cc)
  unwrapped_iff (ok raw) snap = (
    unwrapped_ok raw snap,
    λ (raw', e, res, d, n). let same : raw ≡ raw' = cc in rw (same, unwrapped) (rw d n),
  )

-- What a snapshot comes from: an answered request, whose result decodes to it, with a workspace in it.
pub record Delivered {World : Type 0} (t : Transport World) (c : Client) (w : World)
    (snap : Snapshot) : Type 0 where
  pub raw : Option Json
  pub replied : Replied t "session.snapshot" (object no_fields) c w raw
  pub res : SnapshotResult
  pub decodes : decode_snapshot raw ≡ ok res
  pub nested : res.snapshot ≡ snap
  pub inhabited : snap.workspaces ≢ []

-- `Snapshot` gives a snapshot exactly if the request was answered without an error, its result
-- decodes to that snapshot in its envelope, and the snapshot has a workspace.
pub snapshot_iff :
    {World : Type 0} (t : Transport World) (c : Client) (w : World) (snap : Snapshot)
    → ((snapshot t c w).0 ≡ ok snap) ↔ Delivered t c w snap
unfolding snapshot
snapshot_iff t c w snap =
    let reply = (call t "session.snapshot" (object no_fields) c w).0 in
    (
      λ h.
          let (raw, replied, res, decodes, n) = (unwrapped_iff t reply snap).0 h in
          let (nested, inhabited) = (nonempty_iff res.snapshot snap).0 n in
          record {
            raw = raw;
            replied = (call_iff t "session.snapshot" raw (object no_fields) c w).0 replied;
            res = res;
            decodes = decodes;
            nested = nested;
            inhabited = inhabited;
          },
      λ d. (unwrapped_iff t reply snap).1 (
        d.raw,
        (call_iff t "session.snapshot" d.raw (object no_fields) c w).1 d.replied,
        d.res,
        d.decodes,
        (nonempty_iff d.res.snapshot snap).1 (d.nested, d.inhabited),
      ),
    )

error_of_iff :
    (r : Result CallError (Option Json))
    → (error_of r ≡ none) ↔ ((raw : Option Json) × (r ≡ ok raw))
error_of_iff (ok raw) = ((λ h. (raw, refl)), λ _. refl)
error_of_iff (err e) = ((λ h. cc), λ (raw, h). cc)

-- What an accepted report comes from: a line that holds it, with the number after the last one, and a
-- reply to it without an error.
pub record Accepted {World : Type 0} (t : Transport World) (id source : String) (tokens : Tokens)
    (ttl : ℤ) (c : Client) (w : World) : Type 0 where
  pub raw : Option Json
  pub replied :
      Replied t "workspace.report_metadata" (object (report_params id source tokens ttl)) c w raw
  pub line : IsReportLine ((c.seq + 1) % 18446744073709551616) id source tokens ttl replied.line

-- A report succeeds exactly if its line was written and a server answered it without an error; and the
-- line says the number of the request, the workspace, the source, each token as a text or as null, and
-- a positive ttl.
pub report_metadata_iff :
    {World : Type 0} (t : Transport World) (id source : String) (tokens : Tokens) (ttl : ℤ)
    (c : Client) (w : World)
    → ((report_metadata t id source tokens ttl (c, w)).0 ≡ none)
      ↔ Accepted t id source tokens ttl c w
unfolding report_metadata
report_metadata_iff t id source tokens ttl c w =
    let params = object (report_params id source tokens ttl) in
    let (to, from) = error_of_iff (call t "workspace.report_metadata" params c w).0 in
    let (line, (e, is_line)) = report_line (next_seq c) id source tokens ttl in
    (
      λ h.
          let (raw, ok_raw) = to h in
          let replied = (call_iff t "workspace.report_metadata" raw params c w).0 ok_raw in
          let same : line ≡ replied.line = let both = sym e ∙ replied.marshals in cc in
          record {
            raw = raw;
            replied = replied;
            line =
                subst (IsReportLine ((c.seq + 1) % 18446744073709551616) id source tokens ttl) same
                  is_line;
          },
      λ a. from (a.raw, (call_iff t "workspace.report_metadata" a.raw params c w).1 a.replied),
    )
