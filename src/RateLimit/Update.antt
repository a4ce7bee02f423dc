-- ===== src/RateLimit/Update.antt =====
-- ev_token_bucket_update_ of bufferevent_ratelim.c against the naive computation.
use libevent_linux.Prelude.{
  ℕ, ◌+◌, ◌-◌, ◌*◌, ◌/◌, ◌%◌, ◌^◌, min, ◌≤◌, ◌<◌, ◌≡◌, refl, Bool, true, false, Option, some, ◌||◌,
  ltb, ◌==◌, Bool-cases, inl, inr, ◌⊎◌, arith,
}
use libevent_linux.Time.{Timeval}
use libevent_linux.RateLimit.{
  TokenBucket, TokenBucketCfg, space, refill, ticks_since, ev_token_bucket_update,
  ev_token_bucket_init, ev_token_bucket_cfg_new, exceeds,
}

div_lt : (d n rate : ℕ) → 0 < n → (d / n < rate → d < n * rate) × (rate ≤ d / n → n * rate ≤ d)
div_lt d n rate pos = ((λ h. grind arith), λ h. grind arith)

-- A limit, which may be negative, counted from the least ssize_t, - 2 ^ 63.
abbrev pub from_least : ℕ → ℕ
from_least limit = (limit + 2 ^ 63) % 2 ^ 64

-- The new limit after `gain` more bytes. Up to its maximum a limit is as the naive computation has
-- it, in numbers without bounds: the sum, or the maximum if that is less. A limit above its maximum
-- is not put down: it grows, up to where a size_t wraps around, and is the maximum only beyond.
pub record Refilled (maximum limit gain new : ℕ) : Type 0 where
  pub word : new < 2 ^ 64
  pub clamped :
      exceeds limit maximum ≡ false
      → from_least new ≡ min (from_least maximum) (from_least limit + gain)
  pub grown :
      exceeds limit maximum ≡ true → limit + gain ≤ 2 ^ 64 + maximum → new ≡ (limit + gain) % 2 ^ 64
  pub far : exceeds limit maximum ≡ true → 2 ^ 64 + maximum < limit + gain → new ≡ maximum

refill-Refilled :
    (maximum rate limit n_ticks : ℕ)
    → 0 < n_ticks
    → maximum < 2 ^ 63
    → limit < 2 ^ 64
    → Refilled maximum limit (n_ticks * rate) (refill maximum rate limit n_ticks)
unfolding refill
refill-Refilled maximum rate limit n_ticks pos small word =
    let (low, high) = div_lt (space maximum limit) n_ticks rate pos in
    elim (Bool-cases (ltb (space maximum limit / n_ticks) rate)) [
      | inl full ↦
          let gained : space maximum limit < n_ticks * rate = low (ground (arith, full)) in
          rw full (record {
            word = omega arith;
            clamped = λ below. ground (arith, gained, below);
            grown = λ above less. absurd (ground (arith, gained, above, less));
            far = λ above more. refl;
          })
      | inr part ↦
          let room : n_ticks * rate ≤ space maximum limit = high (ground (arith, part)) in
          rw part (record {
            word = omega arith;
            clamped = λ below. ground (arith, room, below);
            grown = λ above less. ground (arith, room, above, less);
            far = λ above more. absurd (ground (arith, room, above, more));
          })
    ]

-- The fields hold words of their widths, and the maxima are at most EV_SSIZE_MAX, as
-- ev_token_bucket_cfg_new makes them.
pub record IsBucket (bucket : TokenBucket) (cfg : TokenBucketCfg) : Type 0 where
  pub read_word : bucket.read_limit < 2 ^ 64
  pub write_word : bucket.write_limit < 2 ^ 64
  pub tick_word : bucket.last_updated < 2 ^ 32
  pub read_small : cfg.read_maximum < 2 ^ 63
  pub write_small : cfg.write_maximum < 2 ^ 63

-- An update of a bucket whose fields hold words of their widths, `ticks` ticks after the last one,
-- the 32-bit tick counter wrapping around: if `ticks` is positive and at most INT_MAX, each limit
-- that is at most its maximum gains the rate times `ticks`, up to the maximum, as the naive
-- computation says, also if it is negative; one above its maximum is not put down to it, as the
-- naive computation says, but grows while the gain is not so large that a size_t wraps around; and
-- the fields are words again. For no tick, or more than INT_MAX, nothing changes.
pub update-Refilled :
    (bucket : TokenBucket) (cfg : TokenBucketCfg) (ticks : ℕ)
    → IsBucket bucket cfg
    → ticks < 2 ^ 32
    → let (done, b') = ev_token_bucket_update bucket cfg ((bucket.last_updated + ticks) % 2 ^ 32) in
      (0 < ticks
        → ticks < 2 ^ 31
        → (done ≡ true)
          × IsBucket b' cfg
          × Refilled cfg.read_maximum bucket.read_limit (ticks * cfg.read_rate) b'.read_limit
          × Refilled cfg.write_maximum bucket.write_limit (ticks * cfg.write_rate) b'.write_limit
          × (b'.last_updated ≡ (bucket.last_updated + ticks) % 2 ^ 32))
      × ((ticks ≡ 0) ⊎ (2 ^ 31 ≤ ticks) → (done ≡ false) × (b' ≡ bucket))
unfolding ev_token_bucket_update
update-Refilled bucket cfg ticks v word =
    let now = (bucket.last_updated + ticks) % 2 ^ 32 in
    let elapsed : ticks_since bucket now ≡ ticks = omega (arith, v.tick_word) in
    (
      (λ pos small.
          let goes : (ticks == 0 || ltb (2 ^ 31 - 1) ticks) ≡ false = ground arith in
          let read =
            refill-Refilled cfg.read_maximum cfg.read_rate bucket.read_limit ticks pos v.read_small
              v.read_word in
          let write =
            refill-Refilled cfg.write_maximum cfg.write_rate bucket.write_limit ticks pos
              v.write_small v.write_word in
          rw (elapsed, goes)
            (
              refl,
              record {
                read_word = read.word;
                write_word = write.word;
                tick_word = omega arith;
                read_small = v.read_small;
                write_small = v.write_small;
              },
              read,
              write,
              refl,
            )),
      λ other.
          let stays : (ticks == 0 || ltb (2 ^ 31 - 1) ticks) ≡ true = ground arith in
          rw (elapsed, stays) (refl, refl),
    )

-- What ev_token_bucket_cfg_new promises of a configuration.
pub record IsCfg (cfg : TokenBucketCfg) : Type 0 where
  pub read_rate : (1 ≤ cfg.read_rate) × (cfg.read_rate ≤ cfg.read_maximum)
  pub write_rate : (1 ≤ cfg.write_rate) × (cfg.write_rate ≤ cfg.write_maximum)
  pub read_small : cfg.read_maximum < 2 ^ 63
  pub write_small : cfg.write_maximum < 2 ^ 63

within :
    (bucket : TokenBucket) (cfg : TokenBucketCfg) (tick : ℕ) (reinitialize : Bool)
    → IsCfg cfg
    → let b' = ev_token_bucket_init bucket cfg tick reinitialize in
      (exceeds b'.read_limit cfg.read_maximum ≡ false)
      × (exceeds b'.write_limit cfg.write_maximum ≡ false)
unfolding ev_token_bucket_init
within bucket cfg tick true c = (ground arith, ground arith)
within bucket cfg tick false c = (ground (arith, c.read_rate), ground (arith, c.write_rate))

-- A configuration that ev_token_bucket_cfg_new makes has rates of at least one and at most the
-- maxima, and these at most EV_SSIZE_MAX; a bucket set up with it, or set up again from any fields,
-- exceeds neither maximum.
pub init-within :
    (read_rate read_burst write_rate write_burst : ℕ) (tick_len : Option Timeval) (memory : Bool)
    (cfg : TokenBucketCfg)
    → ev_token_bucket_cfg_new read_rate read_burst write_rate write_burst tick_len memory ≡ some cfg
    → IsCfg cfg
      × ((bucket : TokenBucket) (tick : ℕ) (reinitialize : Bool)
          → let b' = ev_token_bucket_init bucket cfg tick reinitialize in
            (exceeds b'.read_limit cfg.read_maximum ≡ false)
            × (exceeds b'.write_limit cfg.write_maximum ≡ false))
unfolding ev_token_bucket_cfg_new
init-within read_rate read_burst write_rate write_burst tick_len memory cfg made =
    let promised : IsCfg cfg = record {
      read_rate = (ground (arith, made), ground (arith, made));
      write_rate = (ground (arith, made), ground (arith, made));
      read_small = ground (arith, made);
      write_small = ground (arith, made);
    } in
    (promised, λ bucket tick reinitialize. within bucket cfg tick reinitialize promised)
