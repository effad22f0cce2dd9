-- ===== src/Config.antt =====
-- internal/config/config.go: the plugin's settings, their defaults, validation and loading. A
-- `time.Duration` is an ℤ of nanoseconds. The file system, the TOML decoder and
-- `time.ParseDuration` are the fields of `Loader`, an argument of `load`. An error keeps the data
-- that its message shows.
pub mod Validity
pub mod Loading
pub mod Heartbeat
pub mod Samples
use herdr_tokens.Prelude.{
  ℕ, ◌*◌, String, ◌==◌, Bool, not, ◌&&◌, ◌||◌, Option, none, some, if◌then◌else◌, List, [], ◌∷◌,
}
use herdr_tokens.Prelude.Int.{ℤ, pos, ltb_ℤ, eqb_ℤ, scale, wrap64, sub_time, quot}
use herdr_tokens.Prelude.Result.{Result, ok, err, ◌>>=◌}

abbrev pub millisecond : ℕ
millisecond = 1000000

abbrev pub second : ℕ
second = 1000000000

abbrev pub minute : ℕ
minute = 60000000000

abbrev pub hour : ℕ
hour = 3600000000000

-- `SchemaVersion`
abbrev pub supported_schema : ℤ
supported_schema = pos 1

pub record Config : Type 0 where
  pub schema_version : ℤ
  pub poll_interval : ℤ
  pub ttl : ℤ
  pub value : String

-- The fields that a file may leave out.
pub record FileShape : Type 0 where
  pub schema_version : Option ℤ
  pub poll_interval : Option String
  pub ttl : Option String
  pub value : Option String

pub data ConfigError : Type 0 where
  unsupported_schema : ℤ → ConfigError
  poll_out_of_range : ℤ → ConfigError
  ttl_exceeds_day : ℤ → ConfigError
  ttl_below_polls : ℤ → ℤ → ConfigError
  bad_value : String → ConfigError
  read_failed : String → String → ConfigError
  parse_failed : String → String → ConfigError
  unknown_field : String → String → ConfigError
  bad_poll_interval : String → ConfigError
  bad_ttl : String → ConfigError

abbrev pub default : Config
default = record {
  schema_version = supported_schema;
  poll_interval = pos (3 * second);
  ttl = pos (90 * second);
  value = "label";
}

unfoldable pub heartbeat_age : Config → ℤ
unfolding quot
heartbeat_age c = quot c.ttl 3

-- `now.Sub(written) < c.HeartbeatAge()`, the controller's test that a write need not be renewed.
abbrev pub fresh : Config → ℤ → ℤ → Bool
fresh c written now = ltb_ℤ (sub_time now written) (heartbeat_age c)

-- `d.Milliseconds()`
unfoldable pub milliseconds : ℤ → ℤ
unfolding quot
milliseconds d = quot d millisecond

-- `none` is a nil error. The product `3*c.PollInterval` is an int64.
unfoldable pub validate : Config → Option ConfigError
validate c =
    if not (eqb_ℤ c.schema_version supported_schema)
    then some (unsupported_schema c.schema_version)
    else if ltb_ℤ c.poll_interval (pos (500 * millisecond)) || ltb_ℤ (pos minute) c.poll_interval
    then some (poll_out_of_range c.poll_interval)
    else if ltb_ℤ (pos (24 * hour)) c.ttl
    then some (ttl_exceeds_day c.ttl)
    else if ltb_ℤ c.ttl (wrap64 (scale 3 c.poll_interval))
    then some (ttl_below_polls c.ttl c.poll_interval)
    else if not (c.value == "label") && not (c.value == "status")
    then some (bad_value c.value)
    else none

-- What `os.ReadFile` gives.
pub data FileRead : Type 0 where
  missing : FileRead
  unreadable : String → FileRead
  contents : String → FileRead

-- What `Load` calls: `toml.Decode` gives the fields and the keys that it could not place.
pub record Loader : Type 0 where
  pub read_file : String → FileRead
  pub decode_toml : String → Result String (FileShape × List String)
  pub parse_duration : String → Result String ℤ

abbrev override {ℓ} : {A : Type ℓ} → Option A → A → A
override none old = old
override (some new) old = new

abbrev parse_field :
    (String → Result String ℤ) → (String → ConfigError) → Option String → ℤ → Result ConfigError ℤ
parse_field parse wrap none old = ok old
parse_field parse wrap (some text) old = elim (parse text) [ ok d ↦ ok d | err e ↦ err (wrap e) ]

abbrev checked : Config → Option ConfigError → Result ConfigError Config
checked c none = ok c
checked c (some e) = err e

abbrev apply_file : Loader → FileShape → Result ConfigError Config
apply_file l f = do
  poll ← parse_field l.parse_duration bad_poll_interval f.poll_interval default.poll_interval
  ttl ← parse_field l.parse_duration bad_ttl f.ttl default.ttl
  let c : Config = record {
    schema_version = override f.schema_version default.schema_version;
    poll_interval = poll;
    ttl = ttl;
    value = override f.value default.value;
  }
  checked c (validate c)

abbrev decoded :
    Loader → String → Result String (FileShape × List String) → Result ConfigError Config
decoded l path (err e) = err (parse_failed path e)
decoded l path (ok (f, [])) = apply_file l f
decoded l path (ok (f, key ∷ _)) = err (unknown_field key path)

abbrev loaded : Loader → String → FileRead → Result ConfigError Config
loaded l path missing = ok default
loaded l path (unreadable e) = err (read_failed path e)
loaded l path (contents text) = decoded l path (l.decode_toml text)

unfoldable pub load : Loader → String → Result ConfigError Config
load l path = loaded l path (l.read_file path)
