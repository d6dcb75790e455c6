-- ===== src/Remote/Device/Codes.antt =====
-- internal/remote/device/store.go: pairing codes, their hashes and random names. A code is read
-- character by character: what base32 prints has one byte for each.
pub mod RoundTrip
use Prim.Native.String.{[] as nil, ◌∷◌ as ◌◂◌, ◌++◌ as append_text}
use mohuddle.Base.{
  ℕ, ◌≡◌, refl, sym, ap, subst, Bool, true, false, not, ◌&&◌, ◌||◌, Char, code, String, List, [],
  ◌∷◌, Option, none, some, ok, err, ◌>>=◌, or_fail, str_eq, if◌then◌else◌, arith, Bool-cases, ltb,
  leb, ◌==◌, length, trim_space, utf8, Result,
}
use mohuddle.Remote.Device.{Bytes, bytes_eq, Packages, Answer, DeviceError, no_random}

-- raw[:5] as long as more than five bytes are left, then what is left.
unfoldable pub groups : String → List String
groups (a ◂ b ◂ c ◂ d ◂ e ◂ f ◂ s) = (a ◂ b ◂ c ◂ d ◂ e ◂ nil) ∷ groups (f ◂ s)
groups nil = []
groups s = s ∷ []

-- strings.Join with a dash
unfoldable pub join : List String → String
join [] = nil
join (x ∷ []) = x
join (x ∷ y ∷ r) = append_text x (append_text "-" (join (y ∷ r)))

unfoldable pub is_separator : ℕ → Bool
is_separator c = c == 45 || c == 32 || c == 9 || c == 13 || c == 10

unfoldable pub strip : String → String
unfolding is_separator
strip nil = nil
strip (c ◂ s) = let rest = strip s in if is_separator (code c) then rest else c ◂ rest

abbrev pub hashed : Bytes → Bool
hashed b = length b == 32

abbrev pub same_digest : Option Bytes → Option Bytes → Bool
same_digest (some l) (some r) = hashed l && hashed r && bytes_eq l r
same_digest _ _ = false

abbrev pub is_digest : Option Bytes → Bool
is_digest none = false
is_digest (some b) = hashed b

module _ (p : Packages) where
  unfoldable pub upper : String → String
  upper nil = nil
  upper (c ◂ s) = p.to_upper c ◂ upper s

  unfoldable pub normalize_code : String → String
  unfolding upper strip
  normalize_code value = strip (upper (trim_space value))

  unfoldable pub hash_code : String → String
  hash_code value = p.encode_hex (p.sha256 (utf8 (normalize_code value)))

  unfoldable pub human_code : Option Bytes → Answer String
  unfolding groups join
  human_code read = do value ← or_fail read no_random; ok (join (groups (p.encode_base32 value)))

  unfoldable pub random_identifier : Option Bytes → Answer String
  random_identifier read = do value ← or_fail read no_random; ok (p.encode_hex value)

  unfoldable pub random_secret : Option Bytes → Answer String
  random_secret read = do value ← or_fail read no_random; ok (p.encode_base64 value)

  unfoldable pub constant_hex_equal : String → String → Bool
  constant_hex_equal left right = same_digest (p.decode_hex left) (p.decode_hex right)

  unfoldable pub valid_hash : String → Bool
  valid_hash value = is_digest (p.decode_hex value)
