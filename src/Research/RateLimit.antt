-- ===== src/Research/RateLimit.antt =====
-- internal/research/rate_limit.go: the cooldowns of hosts that answered 429. A time is a number of
-- nanoseconds from Go's zero time; text is a list of code points.
pub mod Cooldown
mod Tests
use mohuddle.Base.{
  ℕ, zero, suc, ◌+◌, ◌-◌, ◌*◌, ◌^◌, min, Bool, true, false, ◌&&◌, ◌||◌, not, String, List, [], ◌∷◌,
  Option, none, some, ltb, leb, ◌==◌, if◌then◌else◌, u64_mod, lookup, insert, string_eq,
}
use mathlib.Core.List.{reverse}

abbrev pub second : ℕ
second = 1_000_000_000

abbrev pub rate_limit_backoff : ℕ
rate_limit_backoff = 30 * second

abbrev pub rate_limit_failures : ℕ
rate_limit_failures = 3

abbrev pub rate_limit_pause : ℕ
rate_limit_pause = 300 * second

-- The jitter is below this.
abbrev pub max_jitter : ℕ
max_jitter = 5 * second

-- 9999-12-31 23:59:59 UTC.
abbrev pub last_date : ℕ
last_date = 315_537_897_599 * second

-- The most seconds that a Go duration holds.
abbrev pub max_seconds : ℕ
max_seconds = 9_223_372_036

-- `gate` is a channel with room for one: true while a request holds it.
pub record HostRateLimit : Type 0 where
  pub gate : Bool
  pub failures : ℕ
  pub retry_at : ℕ

abbrev pub new_host : HostRateLimit
new_host = record { gate = false; failures = 0; retry_at = 0 }

-- The state of a host, made where there is none.
pub host : String → List (String × HostRateLimit) → HostRateLimit × List (String × HostRateLimit)
host name hosts = elim (lookup name hosts) [
  | some state ↦ (state, hosts)
  | none ↦ (new_host, insert name new_host hosts)
]

pub record RateLimitError : Type 0 where
  pub host : String
  pub retry_at : ℕ
  pub exhausted : Bool
  pub suppressed : Bool

-- unicode.IsSpace
is_space : ℕ → Bool
is_space c =
    (leb 9 c && leb c 13)
    || c == 32
    || c == 133
    || c == 160
    || c == 5760
    || (leb 8192 c && leb c 8202)
    || c == 8232
    || c == 8233
    || c == 8239
    || c == 8287
    || c == 12288

trim_left : List ℕ → List ℕ
trim_left [] = []
trim_left (c ∷ cs) = let rest = trim_left cs in if is_space c then rest else c ∷ cs

-- strings.TrimSpace
trim_space : List ℕ → List ℕ
trim_space cs = reverse (trim_left (reverse (trim_left cs)))

is_digit : ℕ → Bool
is_digit c = leb b'0' c && leb c b'9'

pub all_digits : List ℕ → Bool
all_digits [] = true
all_digits (c ∷ cs) = is_digit c && all_digits cs

decimal : ℕ → List ℕ → ℕ
decimal n [] = n
decimal n (c ∷ cs) = decimal (n * 10 + (c - b'0')) cs

-- strconv.ParseUint in base 10 with 64 bits, on a text of digits.
parse_uint : List ℕ → Option ℕ
parse_uint cs = if ltb (decimal 0 cs) u64_mod then some (decimal 0 cs) else none

later : ℕ → ℕ → ℕ
later candidate retry_at = if ltb retry_at candidate then candidate else retry_at

-- A delta in seconds, far in the future where it is out of range.
delta_seconds : Option ℕ → ℕ → ℕ → ℕ
delta_seconds none now retry_at = last_date
delta_seconds (some seconds) now retry_at =
    if ltb max_seconds seconds then last_date else later (now + seconds * second) retry_at

date : Option ℕ → ℕ → ℕ
date none retry_at = retry_at
date (some candidate) retry_at = later candidate retry_at

-- `parse_time` is http.ParseTime.
read_header : (List ℕ → Option ℕ) → List ℕ → ℕ → ℕ → ℕ
read_header parse_time [] now retry_at = retry_at
read_header parse_time (c ∷ cs) now retry_at =
    if all_digits (c ∷ cs)
    then delta_seconds (parse_uint (c ∷ cs)) now retry_at
    else date (parse_time (c ∷ cs)) retry_at

pub retry_after : (List ℕ → Option ℕ) → List ℕ → ℕ → ℕ → ℕ
retry_after parse_time value now minimum =
    read_header parse_time (trim_space value) now (now + minimum)

-- What a request meets before it is sent. A request whose context is done gives up whether or not
-- it got the gate.
pub data Admission : Type 0 where
  waits cancelled sends : Admission
  refused : RateLimitError → Admission

pub enter : String → Bool → ℕ → HostRateLimit → HostRateLimit × Admission
enter name done now h =
    if done
    then (h, cancelled)
    else if h.gate
    then (h, waits)
    else if ltb now h.retry_at
    then (
      h,
      refused (record {
        host = name;
        retry_at = h.retry_at;
        exhausted = leb rate_limit_failures h.failures;
        suppressed = true;
      }),
    )
    else (record h { gate = true }, sends)

-- What came back: an error of the transport, or a status with its Retry-After header.
pub data Response : Type 0 where
  transport_error : Response
  answered : ℕ → List ℕ → Response

-- The wait after the n-th failure in a row, before the jitter.
pub backoff : ℕ → ℕ
backoff failures =
    if leb rate_limit_failures failures
    then rate_limit_pause
    else rate_limit_backoff * 2 ^ (failures - 1)

limited :
    (List ℕ → Option ℕ)
    → String
    → ℕ
    → ℕ
    → List ℕ
    → HostRateLimit
    → HostRateLimit × Option RateLimitError
limited parse_time name jitter now header h =
    let failures = min (h.failures + 1) rate_limit_failures in
    let retry_at = retry_after parse_time header now (backoff failures + jitter) in
    (
      record { gate = false; failures = failures; retry_at = retry_at },
      some (record {
        host = name;
        retry_at = retry_at;
        exhausted = leb rate_limit_failures failures;
        suppressed = false;
      }),
    )

-- The request is over: the gate opens.
pub settle :
    (List ℕ → Option ℕ)
    → String
    → ℕ
    → ℕ
    → Response
    → HostRateLimit
    → HostRateLimit × Option RateLimitError
unfolding limited
settle parse_time name jitter now transport_error h = (record h { gate = false }, none)
settle parse_time name jitter now (answered status header) h =
    if status == 429
    then limited parse_time name jitter now header h
    else if leb 200 status && ltb status 400
    then (record { gate = false; failures = 0; retry_at = 0 }, none)
    else (record h { gate = false }, none)
