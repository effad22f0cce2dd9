-- ===== src/Config/Samples.antt =====
-- Runs of the configuration's code, and its theorems at concrete settings.
use herdr_tokens.Prelude.{◌==◌, ◌*◌, ◌≡◌, ◌↔◌, refl, true, none, some, [], if◌then◌else◌, arith}
use herdr_tokens.Prelude.Int.{◌≤ℤ◌, pos, negsuc, ◌+ℤ◌, scale, wrap64, sub_time}
use herdr_tokens.Prelude.Result.{ok, err}
use herdr_tokens.Config.{
  Config, poll_out_of_range, ttl_below_polls, default, second, supported_schema, validate, Loader,
  missing, contents, load, fresh, heartbeat_age, milliseconds,
}
use herdr_tokens.Config.Validity.{IsValid, Rejects, validate_iff, validate_error_iff}
use herdr_tokens.Config.Loading.{Loads, load_iff, load-IsValid}
use herdr_tokens.Config.Heartbeat.{IsLive, missed_tick, two_missed_ticks}

-- A directory with one file, which sets the durations and the mode.
abbrev sample_loader : Loader
sample_loader = record {
  read_file = λ path. if path == "config.toml" then contents "text" else missing;
  decode_toml = λ text. ok (
    record {
      schema_version = none;
      poll_interval = some "3s";
      ttl = some "10s";
      value = some "status";
    },
    [],
  );
  parse_duration = λ text.
      if text == "3s"
      then ok (pos (3 * second))
      else if text == "10s"
      then ok (pos (10 * second))
      else err "time: invalid duration";
}

abbrev short_ttl : Config
short_ttl = record {
  schema_version = supported_schema;
  poll_interval = pos (3 * second);
  ttl = pos (10 * second);
  value = "status";
}

loads_file : load sample_loader "config.toml" ≡ ok short_ttl
unfolding load validate wrap64 scale
loads_file = refl

loads_default : load sample_loader "other.toml" ≡ ok default
unfolding load
loads_default = refl

rejections :
    (validate (record default { poll_interval = negsuc 4 }) ≡ some (poll_out_of_range (negsuc 4)))
    × (validate (record default { ttl = pos (8 * second) })
        ≡ some (ttl_below_polls (pos (8 * second)) (pos (3 * second))))
unfolding validate wrap64 scale
rejections = (refl, refl)

default_valid : validate default ≡ none
unfolding validate wrap64 scale
default_valid = refl

validate_iff_example : (validate default ≡ none) ↔ IsValid default
validate_iff_example = validate_iff default

validate_error_iff_example :
    (validate (record default { ttl = pos (8 * second) })
      ≡ some (ttl_below_polls (pos (8 * second)) (pos (3 * second))))
    ↔ Rejects
        (record default { ttl = pos (8 * second) })
        (ttl_below_polls (pos (8 * second)) (pos (3 * second)))
validate_error_iff_example =
    validate_error_iff (record default { ttl = pos (8 * second) })
      (ttl_below_polls (pos (8 * second)) (pos (3 * second)))

load_iff_example :
    (load sample_loader "config.toml" ≡ ok short_ttl) ↔ Loads sample_loader "config.toml" short_ttl
load_iff_example = load_iff sample_loader "config.toml" short_ttl

missed_tick_example : IsLive default (pos 0) (pos (27 * second) +ℤ scale 2 default.poll_interval)
unfolding heartbeat_age milliseconds scale sub_time
missed_tick_example =
    missed_tick default (pos 0) (pos (27 * second)) ((validate_iff default).0 default_valid) refl
      refl

two_missed_ticks_example :
    ((fresh short_ttl (pos 0) (pos 0 +ℤ short_ttl.poll_interval) ≡ true)
      ↔ (scale 3 (short_ttl.poll_interval +ℤ pos 1) ≤ℤ short_ttl.ttl))
    × ¬ IsLive short_ttl
        (pos 0)
        (pos 0 +ℤ short_ttl.poll_interval +ℤ scale 3 short_ttl.poll_interval)
unfolding heartbeat_age milliseconds scale
two_missed_ticks_example =
    two_missed_ticks short_ttl (pos 0)
      (load-IsValid sample_loader "config.toml" short_ttl loads_file) refl (omega arith)
