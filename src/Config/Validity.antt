-- ===== src/Config/Validity.antt =====
-- What `Validate` accepts.
use herdr_tokens.Prelude.{
  String, ◌*◌, refl, eq_iff, ◌≢◌, ◌≡◌, ◌⊎◌, ◌↔◌, Bool, true, false, none, some, arith,
}
use herdr_tokens.Prelude.Int.{ℤ, pos, ◌≤ℤ◌, ◌<ℤ◌, scale, wrap64, scale_parts, wrap64_of_fits}
use herdr_tokens.Config.{
  Config, ConfigError, unsupported_schema, poll_out_of_range, ttl_exceeds_day, ttl_below_polls,
  bad_value, read_failed, parse_failed, unknown_field, bad_poll_interval, bad_ttl, supported_schema,
  millisecond, minute, hour, validate,
}

-- The settings that the documentation allows, over unbounded integers.
pub record IsValid (c : Config) : Type 0 where
  pub schema : c.schema_version ≡ supported_schema
  pub poll_least : pos (500 * millisecond) ≤ℤ c.poll_interval
  pub poll_most : c.poll_interval ≤ℤ pos minute
  pub ttl_most : c.ttl ≤ℤ pos (24 * hour)
  pub ttl_least : scale 3 c.poll_interval ≤ℤ c.ttl
  pub mode : (c.value ≡ "label") ⊎ (c.value ≡ "status")

abbrev HasSchema : Config → Type 0
HasSchema c = c.schema_version ≡ supported_schema

abbrev HasPoll : Config → Type 0
HasPoll c = (pos (500 * millisecond) ≤ℤ c.poll_interval) × (c.poll_interval ≤ℤ pos minute)

-- A poll interval of at most a minute, tripled, does not overflow.
wrap64-scale :
    (p : ℤ) → pos (500 * millisecond) ≤ℤ p → p ≤ℤ pos minute → wrap64 (scale 3 p) ≡ scale 3 p
wrap64-scale p lo hi =
    wrap64_of_fits (scale 3 p) (ground (arith, scale_parts 3 p)) (ground (arith, scale_parts 3 p))

validate-IsValid : (c : Config) → validate c ≡ none → IsValid c
unfolding validate
validate-IsValid c h = ground (
  arith,
  wrap64-scale c.poll_interval,
  scale_parts 3 c.poll_interval,
  eq_iff c.value "label",
  eq_iff c.value "status",
)

IsValid-validate : (c : Config) → IsValid c → validate c ≡ none
unfolding validate
IsValid-validate c v = ground (
  arith,
  wrap64-scale c.poll_interval,
  scale_parts 3 c.poll_interval,
  eq_iff c.value "label",
  eq_iff c.value "status",
)

-- `Validate` returns nil exactly for the documented settings.
pub validate_iff : (c : Config) → (validate c ≡ none) ↔ IsValid c
validate_iff c = (validate-IsValid c, IsValid-validate c)

-- The rejection that the settings call for: the first requirement that fails, in the order schema,
-- poll interval, longest TTL, shortest TTL, mode, with the values shown in the message.
abbrev pub Rejects : Config → ConfigError → Type 0
Rejects c (unsupported_schema v) = (v ≡ c.schema_version) × (v ≢ supported_schema)
Rejects c (poll_out_of_range p) =
    (p ≡ c.poll_interval) × HasSchema c × ((p <ℤ pos (500 * millisecond)) ⊎ (pos minute <ℤ p))
Rejects c (ttl_exceeds_day t) = (t ≡ c.ttl) × HasSchema c × HasPoll c × (pos (24 * hour) <ℤ t)
Rejects c (ttl_below_polls t p) =
    (t ≡ c.ttl)
    × (p ≡ c.poll_interval)
    × HasSchema c
    × HasPoll c
    × (t ≤ℤ pos (24 * hour))
    × (t <ℤ scale 3 p)
Rejects c (bad_value v) =
    (v ≡ c.value)
    × HasSchema c
    × HasPoll c
    × (c.ttl ≤ℤ pos (24 * hour))
    × (scale 3 c.poll_interval ≤ℤ c.ttl)
    × (v ≢ "label")
    × (v ≢ "status")
Rejects c _ = ⊥

-- One lemma for each error.
unsupported_schema_iff :
    (c : Config) (v : ℤ)
    → (validate c ≡ some (unsupported_schema v)) ↔ Rejects c (unsupported_schema v)
unfolding validate
unsupported_schema_iff c v = (λ h. ground arith, λ h. ground arith)

poll_out_of_range_iff :
    (c : Config) (p : ℤ)
    → (validate c ≡ some (poll_out_of_range p)) ↔ Rejects c (poll_out_of_range p)
unfolding validate
poll_out_of_range_iff c p = (λ h. ground arith, λ h. ground arith)

ttl_exceeds_day_iff :
    (c : Config) (t : ℤ) → (validate c ≡ some (ttl_exceeds_day t)) ↔ Rejects c (ttl_exceeds_day t)
unfolding validate
ttl_exceeds_day_iff c t = (λ h. ground arith, λ h. ground arith)

ttl_below_polls_iff :
    (c : Config) (t p : ℤ)
    → (validate c ≡ some (ttl_below_polls t p)) ↔ Rejects c (ttl_below_polls t p)
unfolding validate
ttl_below_polls_iff c t p = (
  λ h. ground (arith, wrap64-scale c.poll_interval, scale_parts 3 c.poll_interval),
  λ h. ground (arith, wrap64-scale c.poll_interval, scale_parts 3 c.poll_interval),
)

bad_value_iff :
    (c : Config) (v : String) → (validate c ≡ some (bad_value v)) ↔ Rejects c (bad_value v)
unfolding validate
bad_value_iff c v = (
  λ h. ground (
    arith,
    wrap64-scale c.poll_interval,
    scale_parts 3 c.poll_interval,
    eq_iff c.value "label",
    eq_iff c.value "status",
  ),
  λ h. ground (
    arith,
    wrap64-scale c.poll_interval,
    scale_parts 3 c.poll_interval,
    eq_iff c.value "label",
    eq_iff c.value "status",
  ),
)

abbrev is_load_error : ConfigError → Bool
is_load_error (unsupported_schema v) = false
is_load_error (poll_out_of_range p) = false
is_load_error (ttl_exceeds_day t) = false
is_load_error (ttl_below_polls t p) = false
is_load_error (bad_value v) = false
is_load_error _ = true

validate_no_load_error :
    (c : Config) (e : ConfigError) → is_load_error e ≡ true → validate c ≢ some e
unfolding validate
validate_no_load_error c e h = ground arith

-- `Validate` returns an error exactly if it is the rejection that the settings call for.
pub validate_error_iff : (c : Config) (e : ConfigError) → (validate c ≡ some e) ↔ Rejects c e
validate_error_iff c (unsupported_schema v) = unsupported_schema_iff c v
validate_error_iff c (poll_out_of_range p) = poll_out_of_range_iff c p
validate_error_iff c (ttl_exceeds_day t) = ttl_exceeds_day_iff c t
validate_error_iff c (ttl_below_polls t p) = ttl_below_polls_iff c t p
validate_error_iff c (bad_value v) = bad_value_iff c v
validate_error_iff c (read_failed p e) =
    (λ h. validate_no_load_error c (read_failed p e) refl h, λ h. elim h [ ])
validate_error_iff c (parse_failed p e) =
    (λ h. validate_no_load_error c (parse_failed p e) refl h, λ h. elim h [ ])
validate_error_iff c (unknown_field k p) =
    (λ h. validate_no_load_error c (unknown_field k p) refl h, λ h. elim h [ ])
validate_error_iff c (bad_poll_interval e) =
    (λ h. validate_no_load_error c (bad_poll_interval e) refl h, λ h. elim h [ ])
validate_error_iff c (bad_ttl e) =
    (λ h. validate_no_load_error c (bad_ttl e) refl h, λ h. elim h [ ])
