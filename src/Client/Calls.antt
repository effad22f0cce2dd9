-- ===== src/Client/Calls.antt =====
-- When a call succeeds: the stages of a request that is answered without an error.
use herdr_tokens.Prelude.{
  String, ◌==◌, ◌+++◌, false, ◌&&◌, Option, none, some, ◌≡◌, ◌↔◌, refl, is_some, Option-cases,
  Bool-cases, inl, inr,
}
use herdr_tokens.Prelude.Result.{Result, ok, err}
use herdr_tokens.Json.{Json}
use herdr_tokens.Json.Marshal.{marshal}
use herdr_tokens.Wire.Decode.{Decoded}
use herdr_tokens.Client.{
  Response, decode_response, Transport, Client, next_seq, request, understood, received, requested,
  sent, connected, call,
}

module _ {World : Type 0} (t : Transport World) where
  abbrev dialled : World → World
  dialled w = (t.dial w).1

  -- What is read after the request's line has been written.
  abbrev read : String → World → (String × Option String) × World
  read line w = t.read_line (t.write (line +++ "\n") (dialled w)).1

  -- The stages of a request that is answered: the connection, the request's line, the reply's line,
  -- and a reply without an error.
  pub record Replied (method : String) (params : Json) (c : Client) (w : World) (raw : Option Json)
      : Type 0 where
    pub connects : (t.dial w).0 ≡ none
    pub line : String
    pub marshals : marshal (request (next_seq c) method params) ≡ ok line
    pub writes : (t.write (line +++ "\n") (dialled w)).0 ≡ none
    pub complete : (is_some (read line w).0.1 && (read line w).0.0 == "") ≡ false
    pub response : Response
    pub decodes : decode_response (read line w).0.0 ≡ ok response
    pub no_error : response.error ≡ none
    pub raw_result : response.result ≡ raw

  understood_iff :
      (method : String) (raw : Option Json) (r : Decoded Response)
      → (understood t method r ≡ ok raw)
        ↔ ((res : Response) × (r ≡ ok res) × (res.error ≡ none) × (res.result ≡ raw))
  unfolding understood
  understood_iff method raw (err e) = ((λ h. cc), λ (res, e', n, v). cc)
  understood_iff method raw (ok res) = elim (Option-cases res.error) [
    | inl n ↦ (λ h. (res, refl, n, cc (rw n at h)), λ (res', e, n', v). rw n (cc))
    | inr (x, s) ↦ (λ h. cc (rw s at h), λ (res', e, n', v). cc)
  ]

  received_iff :
      (method : String) (raw : Option Json) (line : String) (e : Option String) (w : World)
      → ((received t method ((line, e), w)).0 ≡ ok raw) ↔ (
          ((is_some e && line == "") ≡ false)
          × (understood t method (decode_response line) ≡ ok raw))
  unfolding received
  received_iff method raw line e w = elim (Bool-cases (is_some e && line == "")) [
    | inl b ↦ rw b ((λ h. cc), λ (h, _). cc)
    | inr b ↦ rw b ((λ h. (refl, h)), λ (_, h). h)
  ]

  sent_iff :
      (method : String) (raw : Option Json) (p : Option String × World)
      → ((sent t method p).0 ≡ ok raw)
        ↔ ((p.0 ≡ none) × ((received t method (t.read_line p.1)).0 ≡ ok raw))
  unfolding sent
  sent_iff method raw (none, w) = ((λ h. (refl, h)), λ (_, h). h)
  sent_iff method raw (some e, w) = ((λ h. cc), λ (n, h). cc)

  requested_iff :
      (method : String) (raw : Option Json) (r : Result String String) (w : World)
      → ((requested t method r w).0 ≡ ok raw) ↔ (
          (line : String) × (r ≡ ok line)
          × ((sent t method (t.write (line +++ "\n") w)).0 ≡ ok raw))
  unfolding requested
  requested_iff method raw (err e) w = ((λ h. cc), λ (line, e', h). cc)
  requested_iff method raw (ok line) w =
      ((λ h. (line, refl, h)), λ (l, e, h). let same : line ≡ l = cc in rw same h)

  connected_iff :
      (method : String) (raw : Option Json) (params : Json) (c : Client) (p : Option String × World)
      → ((connected t method params c p).0 ≡ ok raw) ↔ (
          (p.0 ≡ none)
          × ((requested t method (marshal (request (next_seq c) method params)) p.1).0 ≡ ok raw))
  unfolding connected
  connected_iff method raw params c (none, w) = ((λ h. (refl, h)), λ (_, h). h)
  connected_iff method raw params c (some e, w) = ((λ h. cc), λ (n, h). cc)

  call-Replied :
      (method : String) (raw : Option Json) (params : Json) (c : Client) (w : World)
      → (call t method params c w).0 ≡ ok raw
      → Replied method params c w raw
  unfolding call
  call-Replied method raw params c w h =
      let (connects, h1) = (connected_iff method raw params c (t.dial w)).0 h in
      let (line, marshals, h2) = (requested_iff method raw _ (dialled w)).0 h1 in
      let (writes, h3) = (sent_iff method raw _).0 h2 in
      let (complete, h4) =
        (received_iff method raw (read line w).0.0 (read line w).0.1 (read line w).1).0 h3 in
      let (response, decodes, no_error, raw_result) = (understood_iff method raw _).0 h4 in
      record {
        connects = connects;
        line = line;
        marshals = marshals;
        writes = writes;
        complete = complete;
        response = response;
        decodes = decodes;
        no_error = no_error;
        raw_result = raw_result;
      }

  Replied-call :
      (method : String) (raw : Option Json) (params : Json) (c : Client) (w : World)
      → Replied method params c w raw
      → (call t method params c w).0 ≡ ok raw
  unfolding call
  Replied-call method raw params c w r = (connected_iff method raw params c (t.dial w)).1 (
    r.connects,
    (requested_iff method raw _ (dialled w)).1 (
      r.line,
      r.marshals,
      (sent_iff method raw _).1 (
        r.writes,
        (received_iff method raw (read r.line w).0.0 (read r.line w).0.1 (read r.line w).1).1 (
          r.complete,
          (understood_iff method raw _).1 (r.response, r.decodes, r.no_error, r.raw_result),
        ),
      ),
    ),
  )

  -- A call succeeds exactly if every stage does.
  pub call_iff :
      (method : String) (raw : Option Json) (params : Json) (c : Client) (w : World)
      → ((call t method params c w).0 ≡ ok raw) ↔ Replied method params c w raw
  call_iff method raw params c w =
      (call-Replied method raw params c w, Replied-call method raw params c w)
