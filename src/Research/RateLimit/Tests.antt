-- ===== src/Research/RateLimit/Tests.antt =====
-- Retry-After headers, and the theorems at concrete inputs.
use mohuddle.Base.{ℕ, ◌+◌, ◌*◌, ◌≤◌, ◌≡◌, refl, List, [], ◌∷◌, Option, none, arith, min, All}
use mohuddle.Research.RateLimit.{
  second, HostRateLimit, new_host, answered, backoff, settle, retry_after, read_header, trim_space,
  trim_left, is_space, all_digits, is_digit, delta_seconds, parse_uint, decimal, later, last_date,
}
use mohuddle.Research.RateLimit.Cooldown.{attempts, IsRefused, cooldown}

abbrev no_date : List ℕ → Option ℕ
no_date cs = none

-- " 120 "
abbrev two_minutes : List ℕ
two_minutes = 32 ∷ b'1' ∷ b'2' ∷ b'0' ∷ 32 ∷ []

two_minutes_wait : retry_after no_date two_minutes 1000 (30 * second) ≡ 1000 + 120 * second
unfolding retry_after read_header trim_space trim_left is_space all_digits is_digit delta_seconds
    parse_uint decimal later
two_minutes_wait = refl

-- "99999999999": more seconds than a duration holds.
huge_wait :
    retry_after no_date
      (b'9' ∷ b'9' ∷ b'9' ∷ b'9' ∷ b'9' ∷ b'9' ∷ b'9' ∷ b'9' ∷ b'9' ∷ b'9' ∷ b'9' ∷ [])
      1000
      second
    ≡ last_date
unfolding retry_after read_header trim_space trim_left is_space all_digits is_digit delta_seconds
    parse_uint decimal later
huge_wait = refl

abbrev busy : HostRateLimit
busy = (settle no_date "example.org" 7 1000 (answered 429 []) new_host).0

cooldown_example :
    ((attempts "example.org" (2000 ∷ 20 * second ∷ []) busy).0 ≡ busy)
    × All IsRefused (attempts "example.org" (2000 ∷ 20 * second ∷ []) busy).1
    × (30 * second ≤ backoff (min (0 + 1) 3))
cooldown_example =
    cooldown no_date "example.org" new_host 7 1000 [] (2000 ∷ 20 * second ∷ [])
      (unfold backoff in omega arith) (unfold backoff in omega arith)
