-- ===== src/Research/RateLimit/Cooldown.antt =====
-- internal/research/rate_limit.go: the cooldown of a host.
use mohuddle.Base.{
  ℕ, zero, suc, ◌+◌, ◌*◌, ◌≤◌, ◌<◌, ◌≡◌, refl, Bool, true, false, String, List, [], ◌∷◌, Option,
  arith, min, All, All-impl,
}
use mohuddle.Research.RateLimit.{
  second, last_date, HostRateLimit, new_host, retry_after, read_header, delta_seconds, date, later,
  trim_space, Admission, waits, cancelled, sends, refused, enter, Response, transport_error,
  answered, backoff, settle,
}

read_header_ge :
    (parse_time : List ℕ → Option ℕ) (cs : List ℕ) (now at : ℕ)
    → at ≤ last_date
    → at ≤ read_header parse_time cs now at
unfolding read_header delta_seconds date later
read_header_ge parse_time [] now at h = omega arith
read_header_ge parse_time (c ∷ cs) now at h = ground arith

-- No Retry-After header, however large, malformed or in the past, makes the wait shorter than the
-- minimum, until the year 9999.
pub retry_after_ge :
    (parse_time : List ℕ → Option ℕ) (value : List ℕ) (now minimum : ℕ)
    → now + minimum ≤ last_date
    → now + minimum ≤ retry_after parse_time value now minimum
unfolding retry_after
retry_after_ge parse_time value now minimum h =
    read_header_ge parse_time (trim_space value) now (now + minimum) h

-- The failures in a row are counted up to the limit.
pub record IsCounted (h : HostRateLimit) : Type 0 where
  pub capped : h.failures ≤ 3
  -- A host that never failed has no cooldown.
  pub fresh : h.failures ≡ 0 → h.retry_at ≡ 0

backoff_ge : (n : ℕ) → 0 < n → 30 * second ≤ backoff n
unfolding backoff
backoff_ge zero h = absurd (omega arith)
backoff_ge (suc zero) h = ground arith
backoff_ge (suc (suc zero)) h = ground arith
backoff_ge (suc (suc (suc n))) h = ground arith

-- Requests that meet a host one after the other, each with its clock, none sent to the end.
pub attempts : String → List ℕ → HostRateLimit → HostRateLimit × List Admission
attempts name [] h = (h, [])
attempts name (now ∷ times) h =
    let (h', a) = enter name false now h in
    let (h'', rest) = attempts name times h' in (h'', a ∷ rest)

abbrev pub IsRefused : Admission → Type 0
IsRefused (refused e) = Unit
IsRefused waits = ⊥
IsRefused cancelled = ⊥
IsRefused sends = ⊥

refusal :
    (name : String) (now : ℕ) (h : HostRateLimit)
    → h.gate ≡ false
    → now < h.retry_at
    → ((enter name false now h).0 ≡ h) × IsRefused (enter name false now h).1
unfolding enter
refusal name now h g lt = ground arith

attempts-IsRefused :
    (name : String) (times : List ℕ) (h : HostRateLimit)
    → h.gate ≡ false
    → All (λ t. t < h.retry_at) times
    → ((attempts name times h).0 ≡ h) × All IsRefused (attempts name times h).1
unfolding attempts
attempts-IsRefused name [] h g lt = (refl, tt)
attempts-IsRefused name (now ∷ times) h g lt =
    let (same, no_send) = refusal name now h g lt.0 in
    let rest = attempts-IsRefused name times h g lt.1 in rw same (rest.0, (no_send, rest.1))

module _ (parse_time : List ℕ → Option ℕ) (name : String) (h : HostRateLimit) (jitter now : ℕ)
    (header : List ℕ) where
  abbrev limited_host : HostRateLimit
  limited_host = (settle parse_time name jitter now (answered 429 header) h).0

  limited_retry :
      now + backoff (min (h.failures + 1) 3) + jitter ≤ last_date
      → (now + backoff (min (h.failures + 1) 3) + jitter ≤ limited_host.retry_at)
        × (limited_host.gate ≡ false)
        × (limited_host.failures ≡ min (h.failures + 1) 3)
  unfolding settle
  limited_retry w = (
    omega (arith, retry_after_ge parse_time header now (backoff (min (h.failures + 1) 3) + jitter)),
    refl,
    refl,
  )

  -- After a 429 no request to the host is sent for at least the backoff of its failures in a row,
  -- 30 seconds or more, whatever the Retry-After header says: each is refused, and none of them
  -- changes the cooldown. (The clock is before the last date.)
  pub cooldown :
      (times : List ℕ)
      → now + backoff (min (h.failures + 1) 3) + jitter ≤ last_date
      → All (λ t. t < now + backoff (min (h.failures + 1) 3) + jitter) times
      → ((attempts name times limited_host).0 ≡ limited_host)
        × All IsRefused (attempts name times limited_host).1
        × (30 * second ≤ backoff (min (h.failures + 1) 3))
  cooldown times w early =
      let (after, gate, _) = limited_retry w in
      let held =
        attempts-IsRefused name times limited_host gate
          (All-impl (λ t lt. omega (arith, after)) times early) in
      (held.0, held.1, backoff_ge (min (h.failures + 1) 3) (omega arith))

-- A request is sent only where the gate was free, it takes the gate, and the cooldown has ended.
pub gate_exclusive :
    (name : String) (done : Bool) (now : ℕ) (h : HostRateLimit)
    → (enter name done now h).1 ≡ sends
    → (h.gate ≡ false) × ((enter name done now h).0.gate ≡ true) × (h.retry_at ≤ now)
unfolding enter
gate_exclusive name done now h e = ground arith

-- Answers in a row, each with its jitter and clock, from a host whose gate the request holds.
pub settle_all :
    (List ℕ → Option ℕ) → String → List (ℕ × ℕ × Response) → HostRateLimit → HostRateLimit
settle_all parse_time name [] h = h
settle_all parse_time name ((jitter, now, r) ∷ rs) h =
    settle_all parse_time name rs (settle parse_time name jitter now r h).0

settle-IsCounted :
    (parse_time : List ℕ → Option ℕ) (name : String) (jitter now : ℕ) (r : Response)
    (h : HostRateLimit)
    → IsCounted h
    → IsCounted (settle parse_time name jitter now r h).0
unfolding settle
settle-IsCounted parse_time name jitter now transport_error h v = ground arith
settle-IsCounted parse_time name jitter now (answered status header) h v = ground arith

-- Whatever a host answers, its failures stay at most three, and it has a cooldown only after a
-- failure that no success has followed.
pub settle_all-IsCounted :
    (parse_time : List ℕ → Option ℕ) (name : String) (rs : List (ℕ × ℕ × Response))
    → IsCounted (settle_all parse_time name rs new_host)
unfolding settle_all
settle_all-IsCounted parse_time name rs = go rs new_host (ground arith)
  where
    go :
        (qs : List (ℕ × ℕ × Response)) (h : HostRateLimit)
        → IsCounted h
        → IsCounted (settle_all parse_time name qs h)
    go [] h v = v
    go ((jitter, now, r) ∷ qs) h v =
        go qs (settle parse_time name jitter now r h).0
          (settle-IsCounted parse_time name jitter now r h v)
