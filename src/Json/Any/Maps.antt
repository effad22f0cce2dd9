-- ===== src/Json/Any/Maps.antt =====
-- What `json.Unmarshal` decodes into an `any` is made of maps: no object has a key twice, at any depth.
use herdr_tokens.Prelude.{String, eq_iff, false, ◌≡◌, ◌≢◌, subst, arith, All, Bool-cases, inl, inr}
use herdr_tokens.Prelude.Result.{Result, ok, err}
use herdr_tokens.Dict.{keys, HasDistinctKeys}
use herdr_tokens.Json.{
  Json, Items, Fields, null, bool, number, text, array, object, no_items, item, no_fields, field,
  entries,
}
use herdr_tokens.Json.Parse.{ParseError, parse}
use herdr_tokens.Json.Any.{
  has_key, keep_last, fits, merged, merged_items, merged_fields, any_of, decode_any,
}

abbrev mutual
  pub IsMaps : Json → Type 0
  IsMaps null = Unit
  IsMaps (bool b) = Unit
  IsMaps (number n) = Unit
  IsMaps (text s) = Unit
  IsMaps (array vs) = ItemsAreMaps vs
  IsMaps (object fs) = HasDistinctKeys (entries fs) × FieldsAreMaps fs

  pub ItemsAreMaps : Items → Type 0
  ItemsAreMaps no_items = Unit
  ItemsAreMaps (item v vs) = IsMaps v × ItemsAreMaps vs

  pub FieldsAreMaps : Fields → Type 0
  FieldsAreMaps no_fields = Unit
  FieldsAreMaps (field k v fs) = IsMaps v × FieldsAreMaps fs

absent : (k : String) (fs : Fields) → has_key k fs ≡ false → All (λ j. j ≢ k) (keys (entries fs))
absent k no_fields h = tt
absent k (field j v fs) h = (ground (arith, eq_iff j k), absent k fs (ground arith))

keep_last-HasDistinctKeys :
    (k : String) (v : Json) (fs : Fields)
    → HasDistinctKeys (entries fs)
    → HasDistinctKeys (entries (keep_last k v fs))
keep_last-HasDistinctKeys k v fs h = elim (Bool-cases (has_key k fs)) [
  | inl there ↦ rw (there, keep_last) h
  | inr new ↦ rw (new, keep_last) (absent k fs new, h)
]

keep_last-AreMaps :
    (k : String) (v : Json) (fs : Fields)
    → IsMaps v
    → FieldsAreMaps fs
    → FieldsAreMaps (keep_last k v fs)
keep_last-AreMaps k v fs m h = elim (Bool-cases (has_key k fs)) [
  | inl there ↦ rw (there, keep_last) h
  | inr new ↦ rw (new, keep_last) (m, h)
]

mutual
  unfolding merged

  merged-IsMaps : (v : Json) → IsMaps (merged v)
  merged-IsMaps null = tt
  merged-IsMaps (bool b) = tt
  merged-IsMaps (number n) = tt
  merged-IsMaps (text s) = tt
  merged-IsMaps (array vs) = merged_items-AreMaps vs
  merged-IsMaps (object fs) = (merged_fields-Distinct fs, merged_fields-AreMaps fs)

  merged_items-AreMaps : (vs : Items) → ItemsAreMaps (merged_items vs)
  merged_items-AreMaps no_items = tt
  merged_items-AreMaps (item v vs) = (merged-IsMaps v, merged_items-AreMaps vs)

  merged_fields-Distinct : (fs : Fields) → HasDistinctKeys (entries (merged_fields fs))
  merged_fields-Distinct no_fields = tt
  merged_fields-Distinct (field k v fs) =
      keep_last-HasDistinctKeys k (merged v) (merged_fields fs) (merged_fields-Distinct fs)

  merged_fields-AreMaps : (fs : Fields) → FieldsAreMaps (merged_fields fs)
  merged_fields-AreMaps no_fields = tt
  merged_fields-AreMaps (field k v fs) =
      keep_last-AreMaps k (merged v) (merged_fields fs) (merged-IsMaps v) (merged_fields-AreMaps fs)

any_of-IsMaps : (r : Result ParseError Json) (v : Json) → any_of r ≡ ok v → IsMaps v
any_of-IsMaps (err e) v h = cc
any_of-IsMaps (ok x) v h = elim (Bool-cases (fits x)) [
  | inl small ↦
      let e : merged x ≡ v = cc (rw (small, any_of) at h) in subst IsMaps e (merged-IsMaps x)
  | inr large ↦ cc (rw (large, any_of) at h)
]

pub decode_any-IsMaps : (s : String) (v : Json) → decode_any s ≡ ok v → IsMaps v
unfolding decode_any
decode_any-IsMaps s v h = any_of-IsMaps (parse s) v h
