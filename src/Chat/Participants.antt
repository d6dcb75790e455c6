-- ===== src/Chat/Participants.antt =====
-- internal/chat/types.go: the names of participants, and texts that say nothing.
use Prim.Native.Char.{code, len_utf8}
use Prim.Native.String.{len, char_at, slice, ◌++◌ as append_text}
use text.Mathlib.Text.{starts_with}
use mohuddle.Base.{
  ℕ, zero, suc, ◌+◌, ◌-◌, ◌*◌, Bool, true, false, not, ◌&&◌, ◌||◌, String, List, [], ◌∷◌, Option,
  none, some, ltb, leb, ◌==◌, str_eq, is_empty, if◌then◌else◌,
}

abbrev pub agents : List String
agents = "codex" ∷ "claude" ∷ "agy" ∷ "copilot" ∷ []

abbrev pub max_int : ℕ
max_int = 9_223_372_036_854_775_807

-- The number that the digits from a place on spell, after `n`; as many rounds as the text has bytes.
digits_from : ℕ → String → ℕ → ℕ → Option ℕ
digits_from zero s i n = if leb (len s) i then some n else none
digits_from (suc k) s i n =
    let c = code (char_at s i) in
    let rest = digits_from k s (i + 1) (n * 10 + (c - 48)) in
    if leb (len s) i then some n else if leb 48 c && leb c 57 then rest else none

in_range : Option ℕ → Bool
in_range none = false
in_range (some n) = ltb 0 n && leb n max_int

-- strconv.Atoi reads a positive number that strconv.Itoa spells the same way.
is_index : String → Bool
unfolding digits_from in_range
is_index s =
    not (is_empty s) && not (code (char_at s 0) == 48) && in_range (digits_from (len s) s 0 0)

is_auxiliary_of : String → String → Bool
unfolding is_index
is_auxiliary_of provider value =
    starts_with value (append_text provider "-")
    && is_index (slice value (len (append_text provider "-")) (len value))

provider_from : List String → String → String
unfolding is_auxiliary_of
provider_from [] value = ""
provider_from (p ∷ rest) value =
    let later = provider_from rest value in if is_auxiliary_of p value then p else later

is_primary : List String → String → Bool
is_primary [] value = false
is_primary (p ∷ rest) value = str_eq p value || is_primary rest value

unfoldable pub provider : String → String
unfolding provider_from is_primary
provider value = if is_primary agents value then value else provider_from agents value

unfoldable pub valid_agent : String → Bool
unfolding provider
valid_agent value = not (is_empty (provider value))

-- unicode.IsSpace.
is_space : ℕ → Bool
is_space c =
    (leb 9 c && leb c 13)
    || c == 32
    || c == 133
    || c == 160
    || c == 5760
    || (leb 8192 c && leb c 8202)
    || c == 8232
    || c == 8233
    || c == 8239
    || c == 8287
    || c == 12_288

blank_from : ℕ → String → ℕ → Bool
unfolding is_space
blank_from zero s i = true
blank_from (suc k) s i =
    let c = char_at s i in
    let rest = blank_from k s (i + len_utf8 c) in
    if leb (len s) i then true else is_space (code c) && rest

-- strings.TrimSpace leaves nothing.
pub is_blank : String → Bool
unfolding blank_from
is_blank s = blank_from (len s) s 0
