-- ===== src/RateLimit/Tests.antt =====
-- Token buckets of bufferevent_ratelim.c at concrete values.
use libevent_linux.Prelude.{
  ℕ, ◌+◌, ◌-◌, ◌*◌, ◌%◌, ◌^◌, ◌≤◌, ◌<◌, ◌≡◌, ◌⊎◌, refl, Bool, true, false, none, some, arith,
}
use libevent_linux.RateLimit.{
  TokenBucket, TokenBucketCfg, exceeds, ev_token_bucket_update, ev_token_bucket_init,
  ev_token_bucket_cfg_new, ev_token_bucket_get_tick,
}
use libevent_linux.RateLimit.Update.{IsBucket, IsCfg, Refilled, update-Refilled, init-within}

-- Ten and five bytes a tick of a second, up to 100 and 50.
abbrev slow : TokenBucketCfg
slow = record {
  read_rate = 10;
  read_maximum = 100;
  write_rate = 5;
  write_maximum = 50;
  tick_timeout = record { tv_sec = 1; tv_usec = 0 };
  msec_per_tick = 1000;
}

-- The bucket owes 3 bytes of reading; its last tick is just before the counter wraps around.
abbrev overdrawn : TokenBucket
overdrawn = record { read_limit = 2 ^ 64 - 3; write_limit = 48; last_updated = 2 ^ 32 - 1 }

slow_new : ev_token_bucket_cfg_new 10 100 5 50 none true ≡ some slow
unfolding ev_token_bucket_cfg_new
slow_new = refl

two_ticks :
    ev_token_bucket_update overdrawn slow 1
    ≡ (true, record { read_limit = 17; write_limit = 50; last_updated = 1 })
unfolding ev_token_bucket_update
two_ticks = refl

tick_seven : ev_token_bucket_get_tick (record { tv_sec = 7; tv_usec = 999999 }) slow ≡ 7
unfolding ev_token_bucket_get_tick
tick_seven = refl

overdrawn-IsBucket : IsBucket overdrawn slow
overdrawn-IsBucket = record {
  read_word = omega arith;
  write_word = omega arith;
  tick_word = omega arith;
  read_small = omega arith;
  write_small = omega arith;
}

update-Refilled_example :
    let (done, b') = ev_token_bucket_update overdrawn slow ((2 ^ 32 - 1 + 2) % 2 ^ 32) in
    (0 < 2
      → 2 < 2 ^ 31
      → (done ≡ true)
        × IsBucket b' slow
        × Refilled 100 (2 ^ 64 - 3) (2 * 10) b'.read_limit
        × Refilled 50 48 (2 * 5) b'.write_limit
        × (b'.last_updated ≡ (2 ^ 32 - 1 + 2) % 2 ^ 32))
    × ((◌≡◌ {A = ℕ} 2 0) ⊎ (2 ^ 31 ≤ 2) → (done ≡ false) × (b' ≡ overdrawn))
update-Refilled_example = update-Refilled overdrawn slow 2 overdrawn-IsBucket (omega arith)

-- A read limit of 200 with a maximum of 100.
abbrev overfull : TokenBucket
overfull = record { read_limit = 200; write_limit = 48; last_updated = 0 }

grows_further :
    ev_token_bucket_update overfull slow 1
    ≡ (true, record { read_limit = 210; write_limit = 50; last_updated = 1 })
unfolding ev_token_bucket_update
grows_further = refl

init-within_example :
    IsCfg slow
    × ((bucket : TokenBucket) (tick : ℕ) (reinitialize : Bool)
        → let b' = ev_token_bucket_init bucket slow tick reinitialize in
          (exceeds b'.read_limit 100 ≡ false) × (exceeds b'.write_limit 50 ≡ false))
init-within_example = init-within 10 100 5 50 none true slow slow_new
