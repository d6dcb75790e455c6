-- ===== src/Base/Text.antt =====
-- What the code takes of Go's strings and unicode packages, on texts whose characters are read one
-- by one.
use Prim.Native.Nat.{ℕ, ◌+◌, ◌/◌, ◌%◌}
use Prim.Native.Char.{code}
use Prim.Native.String.{String, [] as nil, ◌∷◌ as ◌◂◌}
use mathlib.Core.Bool.{Bool, true, false, ◌&&◌, ◌||◌}
use mathlib.Core.List.{List, [], ◌∷◌, ◌++◌}
use mathlib.Core.Path.{◌≡◌, refl}
use native.Mathlib.Omega.{arith}
use mohuddle.Base.Tests.{if◌then◌else◌, ◌==◌, ltb, leb, is_empty}

-- unicode.IsSpace
is_space : ℕ → Bool
is_space c =
    (leb 9 c && leb c 13)
    || c == 32
    || c == 133
    || c == 160
    || c == 5760
    || (leb 8192 c && leb c 8202)
    || c == 8232
    || c == 8233
    || c == 8239
    || c == 8287
    || c == 12_288

-- unicode.IsControl
unfoldable pub is_control : ℕ → Bool
is_control c = ltb c 32 || (leb 127 c && leb c 159)

-- strings.TrimSpace
pub trim_left : String → String
unfolding is_space
trim_left nil = nil
trim_left (c ◂ s) = let rest = trim_left s in if is_space (code c) then rest else c ◂ s

pub trim_right : String → String
unfolding is_space
trim_right nil = nil
trim_right (c ◂ s) =
    let rest = trim_right s in if is_space (code c) && is_empty rest then nil else c ◂ rest

unfoldable pub trim_space : String → String
unfolding trim_left trim_right
trim_space s = trim_left (trim_right s)

-- The bytes of a character, and of a text as Go converts it.
utf8_char : ℕ → List ℕ
utf8_char c =
    if ltb c 128
    then c ∷ []
    else if ltb c 2048
    then (192 + c / 64) ∷ (128 + c % 64) ∷ []
    else if ltb c 65_536
    then (224 + c / 4096) ∷ (128 + c / 64 % 64) ∷ (128 + c % 64) ∷ []
    else (240 + c / 262_144) ∷ (128 + c / 4096 % 64) ∷ (128 + c / 64 % 64) ∷ (128 + c % 64) ∷ []

unfoldable pub utf8 : String → List ℕ
unfolding utf8_char
utf8 nil = []
utf8 (c ◂ s) = utf8_char (code c) ++ utf8 s

-- Every character passes a test.
abbrev pub every : (ℕ → Bool) → String → Bool
every test nil = true
every test (c ◂ s) = test (code c) && every test s

-- What a graphic character of ASCII is not.
abbrev pub is_graphic : ℕ → Bool
is_graphic c = leb 33 c && leb c 126

not_space : (c : ℕ) → is_graphic c ≡ true → is_space c ≡ false
unfolding is_space
not_space c h = ground arith

trim_left-every : (s : String) → every is_graphic s ≡ true → trim_left s ≡ s
unfolding trim_left
trim_left-every nil h = refl
trim_left-every (c ◂ s) h = ground (arith, not_space (code c))

trim_right-every : (s : String) → every is_graphic s ≡ true → trim_right s ≡ s
unfolding trim_right
trim_right-every nil h = refl
trim_right-every (c ◂ s) h = ground (arith, not_space (code c), trim_right-every s)

-- Trimming leaves a text without blanks as it is.
pub trim_space-every : (s : String) → every is_graphic s ≡ true → trim_space s ≡ s
unfolding trim_space
trim_space-every s h = rw (trim_right-every s h) (trim_left-every s h)
