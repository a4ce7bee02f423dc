-- ===== src/Time.antt =====
-- `struct timeval` with fields that are not negative, and evutil_timercmp of include/event2/util.h.
use libevent_linux.Prelude.{
  ℕ, ◌+◌, ◌-◌, ◌*◌, ◌^◌, ◌<◌, ◌≡◌, Bool, ltb, leb, ◌==◌, if◌then◌else◌, arith,
}

pub record Timeval : Type 0 where
  pub tv_sec : ℕ
  pub tv_usec : ℕ

-- evutil_timercmp (a, b, >), (a, b, <), (a, b, <=) and (a, b, >=).
unfoldable pub timer_gt : Timeval → Timeval → Bool
timer_gt a b = if a.tv_sec == b.tv_sec then ltb b.tv_usec a.tv_usec else ltb b.tv_sec a.tv_sec

unfoldable pub timer_lt : Timeval → Timeval → Bool
timer_lt a b = if a.tv_sec == b.tv_sec then ltb a.tv_usec b.tv_usec else ltb a.tv_sec b.tv_sec

unfoldable pub timer_le : Timeval → Timeval → Bool
timer_le a b = if a.tv_sec == b.tv_sec then leb a.tv_usec b.tv_usec else leb a.tv_sec b.tv_sec

unfoldable pub timer_ge : Timeval → Timeval → Bool
timer_ge a b = if a.tv_sec == b.tv_sec then leb b.tv_usec a.tv_usec else leb b.tv_sec a.tv_sec

-- timeradd and timersub of sys/time.h, the second of a later and an earlier time.
unfoldable pub timeradd : Timeval → Timeval → Timeval
timeradd t u =
    let usec = t.tv_usec + u.tv_usec in
    if leb 1000000 usec
    then record { tv_sec = t.tv_sec + u.tv_sec + 1; tv_usec = usec - 1000000 }
    else record { tv_sec = t.tv_sec + u.tv_sec; tv_usec = usec }

unfoldable pub timersub : Timeval → Timeval → Timeval
timersub t u =
    if ltb t.tv_usec u.tv_usec
    then record { tv_sec = t.tv_sec - u.tv_sec - 1; tv_usec = t.tv_usec + 1000000 - u.tv_usec }
    else record { tv_sec = t.tv_sec - u.tv_sec; tv_usec = t.tv_usec - u.tv_usec }

-- A time in microseconds.
abbrev pub micros : Timeval → ℕ
micros t = t.tv_sec * 1000000 + t.tv_usec

abbrev pub IsNormal : Timeval → Type 0
IsNormal t = t.tv_usec < 1000000

-- A time as one number: a `tv_usec` is below 2 ^ 64.
abbrev pub rank : Timeval → ℕ
rank t = t.tv_sec * 2 ^ 64 + t.tv_usec

abbrev pub IsWord : Timeval → Type 0
IsWord t = t.tv_usec < 2 ^ 64

pub timer_gt-rank : (a b : Timeval) → IsWord a → IsWord b → timer_gt a b ≡ ltb (rank b) (rank a)
unfolding timer_gt
timer_gt-rank a b ha hb = ground arith

pub timer_lt-rank : (a b : Timeval) → IsWord a → IsWord b → timer_lt a b ≡ ltb (rank a) (rank b)
unfolding timer_lt
timer_lt-rank a b ha hb = ground arith

pub timer_le-rank : (a b : Timeval) → IsWord a → IsWord b → timer_le a b ≡ leb (rank a) (rank b)
unfolding timer_le
timer_le-rank a b ha hb = ground arith

pub timer_ge-rank : (a b : Timeval) → IsWord a → IsWord b → timer_ge a b ≡ leb (rank b) (rank a)
unfolding timer_ge
timer_ge-rank a b ha hb = ground arith
