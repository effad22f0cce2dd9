-- ===== src/Config/Heartbeat.antt =====
-- How the age at which a write is renewed, a third of the TTL, relates to ticks that are missed.
-- Ticks come a poll interval apart.
use herdr_tokens.Prelude.{◌↔◌, ◌≡◌, true, arith}
use herdr_tokens.Prelude.Int.{
  ℤ, pos, ◌≤ℤ◌, ◌<ℤ◌, ◌+ℤ◌, ◌-ℤ◌, scale, ltb_ℤ, quot, ltb_ℤ-sub_time, int_laws, +ℤ_parts,
  scale_parts, lt→ltb_ℤ, ltb_ℤ→lt, max_int64,
}
use herdr_tokens.Config.{Config, heartbeat_age, milliseconds, millisecond, fresh}
use herdr_tokens.Config.Validity.{IsValid}

-- Seen at `now`, tokens written at `written` with the TTL that is sent have not expired.
abbrev pub IsLive : Config → ℤ → ℤ → Type 0
IsLive c written now = now -ℤ written <ℤ scale millisecond (milliseconds c.ttl)

-- The age lies between the poll interval and a third of the TTL, and is at most eight hours.
record HasGoodAge (c : Config) : Type 0 where
  poll : c.poll_interval ≤ℤ heartbeat_age c
  third : scale 3 (heartbeat_age c) ≤ℤ c.ttl
  above : pos 0 ≤ℤ heartbeat_age c
  below : heartbeat_age c ≤ℤ pos max_int64

heartbeat_age-HasGoodAge : (c : Config) → IsValid c → HasGoodAge c
unfolding heartbeat_age
heartbeat_age-HasGoodAge c v =
    ground (arith, scale_parts 3 c.poll_interval, scale_parts 3 (quot c.ttl 3))

pub fresh_iff :
    (c : Config) (written now : ℤ)
    → IsValid c
    → fresh c written now ≡ ltb_ℤ (now -ℤ written) (heartbeat_age c)
fresh_iff c written now v =
    let g = heartbeat_age-HasGoodAge c v in
    ltb_ℤ-sub_time now written (heartbeat_age c) (ground arith) (g.below)

-- In a valid configuration with a TTL of whole milliseconds, tokens that a tick did not renew, since
-- they were fresh, have not expired two poll intervals later: the tick between may be missed.
pub missed_tick :
    (c : Config) (written tick : ℤ)
    → IsValid c
    → c.ttl ≡ scale millisecond (milliseconds c.ttl)
    → fresh c written tick ≡ true
    → IsLive c written (tick +ℤ scale 2 c.poll_interval)
missed_tick c written tick v w f =
    let g = heartbeat_age-HasGoodAge c v in
    let f' = rw (fresh_iff c written tick v) at f in
    rw (← w)
      (omega (int_laws, scale_parts, lt→ltb_ℤ, ltb_ℤ→lt (tick -ℤ written) (heartbeat_age c) f'))

-- An age is below a third of the TTL, cut to nanoseconds, exactly if three times the next age is not
-- above the TTL.
below_third :
    (c : Config) (age : ℤ)
    → IsValid c
    → pos 0 ≤ℤ age
    → (age <ℤ heartbeat_age c) ↔ (scale 3 (age +ℤ pos 1) ≤ℤ c.ttl)
unfolding heartbeat_age
below_third c age v h =
    ground (arith, +ℤ_parts age (pos 1), scale_parts 3 (age +ℤ pos 1), scale_parts 3 (quot c.ttl 3))

-- In a valid configuration with a TTL of whole milliseconds that is at most four poll intervals, the
-- tick after a write leaves it as it is exactly if a third of the TTL, in whole nanoseconds, is above a
-- poll interval; and three poll intervals after that tick, two missed ticks between, the tokens have
-- expired.
pub two_missed_ticks :
    (c : Config) (written : ℤ)
    → IsValid c
    → c.ttl ≡ scale millisecond (milliseconds c.ttl)
    → c.ttl ≤ℤ scale 4 c.poll_interval
    → ((fresh c written (written +ℤ c.poll_interval) ≡ true)
        ↔ (scale 3 (c.poll_interval +ℤ pos 1) ≤ℤ c.ttl))
      × ¬ IsLive c written (written +ℤ c.poll_interval +ℤ scale 3 c.poll_interval)
two_missed_ticks c written v w long = (
  (
    λ f. (below_third c c.poll_interval v (omega int_laws)).0 (
        omega (
          int_laws,
          ltb_ℤ→lt (written +ℤ c.poll_interval -ℤ written) (heartbeat_age c)
              (rw (fresh_iff c written (written +ℤ c.poll_interval) v) at f),
        )),
    λ h. rw (fresh_iff c written (written +ℤ c.poll_interval) v) (
        lt→ltb_ℤ (written +ℤ c.poll_interval -ℤ written) (heartbeat_age c)
          (omega (int_laws, (below_third c c.poll_interval v (omega int_laws)).1 h))),
  ),
  rw (← w) (λ live. omega int_laws),
)
