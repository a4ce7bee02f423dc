-- ===== src/RateLimit.antt =====
-- The token buckets of bufferevent_ratelim.c. A limit of type ssize_t is its 64-bit word, so that
-- the arithmetic with size_t is modulo 2 ^ 64.
pub mod Update
mod Tests
use libevent_linux.Prelude.{
  ℕ, ◌+◌, ◌-◌, ◌*◌, ◌/◌, ◌%◌, ◌^◌, ◌≤◌, ◌<◌, ◌≡◌, refl, Bool, true, false, ◌&&◌, ◌||◌, Option, none,
  some, ltb, leb, ◌==◌, if◌then◌else◌, if_true, if_false, Bool-cases, inl, inr, arith,
}
use libevent_linux.Time.{Timeval}

pub record TokenBucket : Type 0 where
  pub read_limit : ℕ
  pub write_limit : ℕ
  pub last_updated : ℕ

pub record TokenBucketCfg : Type 0 where
  pub read_rate : ℕ
  pub read_maximum : ℕ
  pub write_rate : ℕ
  pub write_maximum : ℕ
  pub tick_timeout : Timeval
  pub msec_per_tick : ℕ

-- `limit > (int64_t) maximum`, of a word and a number below 2 ^ 63.
abbrev pub exceeds : ℕ → ℕ → Bool
exceeds limit maximum = ltb limit (2 ^ 63) && ltb maximum limit

unfoldable pub ev_token_bucket_init : TokenBucket → TokenBucketCfg → ℕ → Bool → TokenBucket
ev_token_bucket_init bucket cfg current_tick true = record {
  read_limit =
      if exceeds bucket.read_limit cfg.read_maximum then cfg.read_maximum else bucket.read_limit;
  write_limit =
      if exceeds bucket.write_limit cfg.write_maximum
      then cfg.write_maximum
      else bucket.write_limit;
  last_updated = bucket.last_updated;
}
ev_token_bucket_init bucket cfg current_tick false = record {
  read_limit = cfg.read_rate;
  write_limit = cfg.write_rate;
  last_updated = current_tick;
}

-- `maximum - limit`, as a size_t.
abbrev pub space : ℕ → ℕ → ℕ
space maximum limit = (maximum + 2 ^ 64 - limit) % 2 ^ 64

-- The new limit, for reading and for writing.
unfoldable pub refill : ℕ → ℕ → ℕ → ℕ → ℕ
refill maximum rate limit n_ticks =
    if ltb (space maximum limit / n_ticks) rate
    then maximum
    else (limit + n_ticks * rate % 2 ^ 64) % 2 ^ 64

abbrev pub ticks_since : TokenBucket → ℕ → ℕ
ticks_since bucket current_tick = (current_tick + 2 ^ 32 - bucket.last_updated) % 2 ^ 32

unfoldable pub ev_token_bucket_update : TokenBucket → TokenBucketCfg → ℕ → Bool × TokenBucket
unfolding refill
ev_token_bucket_update bucket cfg current_tick =
    let n_ticks = ticks_since bucket current_tick in
    if n_ticks == 0 || ltb (2 ^ 31 - 1) n_ticks then (false, bucket) else (
      true,
      record {
        read_limit = refill cfg.read_maximum cfg.read_rate bucket.read_limit n_ticks;
        write_limit = refill cfg.write_maximum cfg.write_rate bucket.write_limit n_ticks;
        last_updated = current_tick;
      },
    )

unfoldable pub ev_token_bucket_get_tick : Timeval → TokenBucketCfg → ℕ
ev_token_bucket_get_tick tv cfg =
    (tv.tv_sec * 1000 + tv.tv_usec / 1000) % 2 ^ 64 / cfg.msec_per_tick % 2 ^ 32

-- `tick_len` is `none` for NULL; `memory` is the answer of mm_calloc.
unfoldable pub ev_token_bucket_cfg_new :
    ℕ → ℕ → ℕ → ℕ → Option Timeval → Bool → Option TokenBucketCfg
ev_token_bucket_cfg_new read_rate read_burst write_rate write_burst tick_len memory =
    let tick_len' : Timeval = elim tick_len [
      | none ↦ record { tv_sec = 1; tv_usec = 0 }
      | some tv ↦ tv
    ] in
    if ltb read_burst read_rate || ltb write_burst write_rate || ltb read_rate 1 || ltb write_rate 1
    then none
    else if ltb (2 ^ 63 - 1) read_rate
        || ltb (2 ^ 63 - 1) write_rate
        || ltb (2 ^ 63 - 1) read_burst
        || ltb (2 ^ 63 - 1) write_burst
    then none
    else if memory
    then some (record {
      read_rate = read_rate;
      read_maximum = read_burst;
      write_rate = write_rate;
      write_maximum = write_burst;
      tick_timeout = tick_len';
      msec_per_tick = (tick_len'.tv_sec * 1000 + tick_len'.tv_usec % 2 ^ 20 / 1000) % 2 ^ 32;
    })
    else none
