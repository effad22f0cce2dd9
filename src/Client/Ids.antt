-- ===== src/Client/Ids.antt =====
-- The ids in the lines that a client sends: call of internal/herdrapi/client.go, any number of times.
use package.text.Mathlib.TextLemmas.{append_cancel_left}
use herdr_tokens.Prelude.{
  ◌+◌, ◌≤◌, ◌<◌, String, ◌+++◌, Option, some, List, [], ◌∷◌, ◌≡◌, ◌≢◌, refl, ap, sym, ◌∙◌, arith,
  All, All-map, length, Bool-cases, inl, inr, if◌then◌else◌, is_some, map, subst,
}
use herdr_tokens.Prelude.Result.{Result, ok}
use herdr_tokens.Dict.{Distinct, lookup}
use herdr_tokens.Decimal.{itoa}
use herdr_tokens.Decimal.RoundTrip.{itoa_injective}
use herdr_tokens.Json.{Json, text, object, entries}
use herdr_tokens.Json.Parse.{ParseError, parse}
use herdr_tokens.Json.RoundTrip.Literals.{HasLiterals}
use herdr_tokens.Json.Marshal.{marshal}
use herdr_tokens.Client.{
  Transport, Client, new_client, next_seq, request, request_id, call, connected, requested, sent,
  received,
}
use herdr_tokens.Client.Lines.{request_line}

abbrev text_in : Option Json → String
text_in (some (text s)) = s
text_in _ = ""

abbrev id_in : Result ParseError Json → String
id_in (ok (object fs)) = text_in (lookup "id" (entries fs))
id_in _ = ""

-- What a reader of a line finds in its id.
unfoldable pub id_of : String → String
unfolding parse
id_of line = id_in (parse line)

id_of-request :
    (c : Client) (method line : String) (params : Json)
    → HasLiterals params
    → marshal (request c method params) ≡ ok line
    → id_of (line +++ "\n") ≡ request_id c
unfolding id_of
id_of-request c method line params h m =
    let (l, (e, (_, p))) = request_line c method params h in
    let same : l ≡ line = let both = sym e ∙ m in cc in
    ap (λ x. id_in (parse (x +++ "\n"))) (sym same) ∙ ap id_in p ∙ unfold request lookup in refl

request_id_injective : (c d : Client) → request_id c ≡ request_id d → c.seq ≡ d.seq
unfolding request_id
request_id_injective c d h =
    itoa_injective c.seq d.seq (append_cancel_left "herdr-tokens-" (itoa c.seq) (itoa d.seq) h)

-- The id of an earlier request of the client.
record IsEarlier (c : Client) (line : String) : Type 0 where
  by : Client
  id : id_of line ≡ request_id by
  earlier : by.seq ≤ c.seq

-- The lines of a client so far.
record IsLog (c : Client) (lines : List String) : Type 0 where
  distinct : Distinct (map id_of lines)
  earlier : All (IsEarlier c) lines

IsEarlier-next :
    (c : Client) (line : String)
    → c.seq + 1 < 18446744073709551616
    → IsEarlier c line
    → IsEarlier (next_seq c) line
IsEarlier-next c line lt e = record { by = e.by; id = e.id; earlier = omega (arith, e.earlier) }

other_ids :
    (c : Client) (id : String) (lines : List String)
    → c.seq + 1 < 18446744073709551616
    → id ≡ request_id (next_seq c)
    → All (IsEarlier c) lines
    → All (λ j. j ≢ id) (map id_of lines)
other_ids c id [] lt h es = tt
other_ids c id (line ∷ lines) lt h (e, es) = (
  λ same.
      let seqs : e.by.seq ≡ (next_seq c).seq =
        request_id_injective e.by (next_seq c) (sym e.id ∙ same ∙ h) in
      absurd (omega (arith, e.earlier)),
  other_ids c id lines lt h es,
)

IsLog-next :
    (c : Client) (line : String) (lines : List String)
    → c.seq + 1 < 18446744073709551616
    → id_of line ≡ request_id (next_seq c)
    → IsLog c lines
    → IsLog (next_seq c) (line ∷ lines)
IsLog-next c line lines lt h log = record {
  distinct = (other_ids c (id_of line) lines lt h log.earlier, log.distinct);
  earlier = (
    record { by = next_seq c; id = h; earlier = omega arith },
    All-map lines (λ l e. IsEarlier-next c l lt e) log.earlier,
  );
}

module _ {World : Type 0} (t : Transport World) where
  -- The connection, with a log of the lines written to it, the last one first.
  abbrev pub logged : Transport (List String × World)
  logged = record {
    dial = λ (lines, w). ((t.dial w).0, (lines, (t.dial w).1));
    write = λ line (lines, w). ((t.write line w).0, (line ∷ lines, (t.write line w).1));
    read_line = λ (lines, w). ((t.read_line w).0, (lines, (t.read_line w).1));
    ctx_err = λ (lines, w). t.ctx_err w;
  }

  -- The lines that a client has written after these calls.
  unfoldable pub lines_sent : List (String × Json) → Client → List String × World → List String
  lines_sent [] c w = w.0
  lines_sent ((method, params) ∷ calls) c w =
      let (_, c', w') = call logged method params c w in lines_sent calls c' w'

  call-next :
      (method : String) (params : Json) (c : Client) (w : List String × World)
      → (call logged method params c w).1 ≡ (if is_some (t.dial w.1).0 then c else next_seq c)
  unfolding call connected
  call-next method params c w = ground arith

  call-lines :
      (method line : String) (params : Json) (c : Client) (w : List String × World)
      → marshal (request (next_seq c) method params) ≡ ok line
      → (call logged method params c w).2.0
        ≡ (if is_some (t.dial w.1).0 then w.0 else (line +++ "\n") ∷ w.0)
  unfolding call connected requested sent received
  call-lines method line params c w m = ground (arith, m)

  lines_sent-Distinct :
      (calls : List (String × Json)) (c : Client) (w : List String × World)
      → c.seq + length calls < 18446744073709551616
      → All (λ call. HasLiterals call.1) calls
      → IsLog c w.0
      → Distinct (map id_of (lines_sent calls c w))
  unfolding lines_sent
  lines_sent-Distinct [] c w lt hs log = log.distinct
  lines_sent-Distinct ((method, params) ∷ calls) c w lt (h, hs) log =
      let (line, (m, _)) = request_line (next_seq c) method params h in
      let next = call-next method params c w in
      let lines = call-lines method line params c w m in
      elim (Bool-cases (is_some (t.dial w.1).0)) [
        | inl failed ↦
            rw (next, failed)
              (lines_sent-Distinct calls c (call logged method params c w).2 (omega arith) hs
                (subst (IsLog c) (sym (lines ∙ rw failed refl)) log))
        | inr sends ↦
            rw (next, sends)
              (lines_sent-Distinct calls (next_seq c) (call logged method params c w).2
                (omega arith) hs
                (subst (IsLog (next_seq c)) (sym (lines ∙ rw sends refl)) (
                  IsLog-next c (line +++ "\n") w.0 (omega arith)
                    (id_of-request (next_seq c) method line params h m) log)))
      ]

-- No two lines that a client sends carry the same id: for any calls, fewer than 2^64 of them, with
-- params whose numbers are numbers, and whatever the connection does.
pub request_ids-Distinct :
    {World : Type 0} (t : Transport World) (calls : List (String × Json)) (w : World)
    → length calls < 18446744073709551616
    → All (λ (call : String × Json). HasLiterals call.1) calls
    → Distinct (map id_of (lines_sent t calls new_client ([], w)))
request_ids-Distinct t calls w lt h =
    lines_sent-Distinct t calls new_client ([], w) (omega arith) h
      (record { distinct = tt; earlier = tt })
