-- ===== src/Wire/Decode/Errors.antt =====
-- Decoding a value into a struct fails in one way only, by a value of another type.
use herdr_tokens.Prelude.{String, Option, some, Bool-cases, inl, inr}
use herdr_tokens.Prelude.Result.{ok, err, ◌>>=◌}
use herdr_tokens.Json.{Json, Fields, null, bool, number, text, array, object, no_fields, field}
use herdr_tokens.Wire.{RpcError}
use herdr_tokens.Wire.Decode.{
  malformed, mismatch, Decoded, is_field, into_fields, into_struct, into_string, rpc_error_field,
  into_error, or_new,
}

-- The only error is a mismatch.
abbrev pub OnlyMismatches {ℓ} : {A : Type ℓ} → Decoded A → Type 0
OnlyMismatches (ok a) = Unit
OnlyMismatches (err (malformed e)) = ⊥
OnlyMismatches (err mismatch) = Unit

pub then_OnlyMismatches {ℓ κ} :
    {A : Type ℓ} {B : Type κ} (r : Decoded A) (next : A → Decoded B)
    → OnlyMismatches r
    → ((a : A) → OnlyMismatches (next a))
    → OnlyMismatches (r >>= next)
then_OnlyMismatches (ok a) next h k = k a
then_OnlyMismatches (err (malformed e)) next h k = h
then_OnlyMismatches (err mismatch) next h k = tt

into_fields-OnlyMismatches {ℓ} :
    {A : Type ℓ} (step : String → Json → A → Decoded A)
    → ((k : String) (v : Json) (a : A) → OnlyMismatches (step k v a))
    → (fs : Fields) (a : A) → OnlyMismatches (into_fields step fs a)
unfolding into_fields
into_fields-OnlyMismatches step h no_fields a = tt
into_fields-OnlyMismatches step h (field k v fs) a =
    then_OnlyMismatches (step k v a) _ (h k v a) (λ a'. into_fields-OnlyMismatches step h fs a')

pub into_struct-OnlyMismatches {ℓ} :
    {A : Type ℓ} (step : String → Json → A → Decoded A)
    → ((k : String) (v : Json) (a : A) → OnlyMismatches (step k v a))
    → (v : Json) (a : A) → OnlyMismatches (into_struct step v a)
into_struct-OnlyMismatches step h null a = tt
into_struct-OnlyMismatches step h (bool b) a = tt
into_struct-OnlyMismatches step h (number n) a = tt
into_struct-OnlyMismatches step h (text s) a = tt
into_struct-OnlyMismatches step h (array vs) a = tt
into_struct-OnlyMismatches step h (object fs) a = into_fields-OnlyMismatches step h fs a

into_string-OnlyMismatches : (v : Json) (old : String) → OnlyMismatches (into_string v old)
into_string-OnlyMismatches null old = tt
into_string-OnlyMismatches (bool b) old = tt
into_string-OnlyMismatches (number n) old = tt
into_string-OnlyMismatches (text s) old = tt
into_string-OnlyMismatches (array vs) old = tt
into_string-OnlyMismatches (object fs) old = tt

rpc_error_field-OnlyMismatches :
    (k : String) (v : Json) (e : RpcError) → OnlyMismatches (rpc_error_field k v e)
unfolding rpc_error_field
rpc_error_field-OnlyMismatches k v e = elim (Bool-cases (is_field "code" k)) [
  | inl code ↦
      rw code (
        then_OnlyMismatches (into_string v e.code) _ (into_string-OnlyMismatches v e.code)
          (λ s. tt))
  | inr other ↦ elim (Bool-cases (is_field "message" k)) [
    | inl message ↦
        rw (other, message)
          (then_OnlyMismatches (into_string v e.message) _ (into_string-OnlyMismatches v e.message)
            (λ s. tt))
    | inr unknown ↦ rw (other, unknown) tt
  ]
]

pub into_error-OnlyMismatches :
    (v : Json) (old : Option RpcError) → OnlyMismatches (into_error v old)
unfolding into_error
into_error-OnlyMismatches null old = tt
into_error-OnlyMismatches (bool b) old =
    then_OnlyMismatches (into_struct rpc_error_field (bool b) (or_new old)) (λ e. ok (some e))
      (into_struct-OnlyMismatches rpc_error_field rpc_error_field-OnlyMismatches (bool b)
        (or_new old))
      (λ e. tt)
into_error-OnlyMismatches (number n) old =
    then_OnlyMismatches (into_struct rpc_error_field (number n) (or_new old)) (λ e. ok (some e))
      (into_struct-OnlyMismatches rpc_error_field rpc_error_field-OnlyMismatches (number n)
        (or_new old))
      (λ e. tt)
into_error-OnlyMismatches (text s) old =
    then_OnlyMismatches (into_struct rpc_error_field (text s) (or_new old)) (λ e. ok (some e))
      (into_struct-OnlyMismatches rpc_error_field rpc_error_field-OnlyMismatches (text s)
        (or_new old))
      (λ e. tt)
into_error-OnlyMismatches (array vs) old =
    then_OnlyMismatches (into_struct rpc_error_field (array vs) (or_new old)) (λ e. ok (some e))
      (into_struct-OnlyMismatches rpc_error_field rpc_error_field-OnlyMismatches (array vs)
        (or_new old))
      (λ e. tt)
into_error-OnlyMismatches (object fs) old =
    then_OnlyMismatches (into_struct rpc_error_field (object fs) (or_new old)) (λ e. ok (some e))
      (into_struct-OnlyMismatches rpc_error_field rpc_error_field-OnlyMismatches (object fs)
        (or_new old))
      (λ e. tt)
