-- ===== src/Remote/Device/Codes/RoundTrip.antt =====
-- internal/remote/device/store.go: a pairing code as it is shown, and as it is typed back.
use Prim.Native.String.{[] as nil, ◌∷◌ as ◌◂◌, ◌++◌ as append_text}
use text.Mathlib.TextLemmas.{nil-append, cons-append, append-nil as text_append-nil}
use mohuddle.Base.{
  ℕ, ◌≡◌, refl, ap, ◌∙◌, Bool, true, false, ◌&&◌, ◌||◌, Char, code, String, List, [], ◌∷◌, some, ok,
  arith, Bool-cases, inl, inr, utf8, leb, ◌==◌, every, is_graphic, trim_space-every, All,
}
use mohuddle.Remote.Device.{Bytes, Packages}
use mohuddle.Remote.Device.Codes.{
  groups, join, is_separator, strip, upper, normalize_code, human_code, hash_code,
}

-- The alphabet of base32, and the dash between the groups.
abbrev pub is_base32 : ℕ → Bool
is_base32 c = (leb 65 c && leb c 90) || (leb 50 c && leb c 55)

abbrev pub is_dashed : ℕ → Bool
is_dashed c = is_base32 c || c == 45

-- What base32 prints is in its alphabet, and an upper-case letter, a digit and a dash stay what they
-- are in upper case.
pub record PrintsBase32 (p : Packages) : Type 0 where
  pub in_alphabet : (b : Bytes) → every is_base32 (p.encode_base32 b) ≡ true
  pub is_upper : (c : Char) → is_dashed (code c) ≡ true → p.to_upper c ≡ c

every-impl :
    (p q : ℕ → Bool) (s : String)
    → ((c : ℕ) → p c ≡ true → q c ≡ true)
    → every p s ≡ true
    → every q s ≡ true
every-impl p q nil f h = refl
every-impl p q (c ◂ s) f h = ground (arith, f (code c), every-impl p q s f)

every-append :
    (test : ℕ → Bool) (s t : String)
    → every test s ≡ true
    → every test t ≡ true
    → every test (append_text s t) ≡ true
every-append test nil t h k = rw nil-append k
every-append test (c ◂ s) t h k = rw cons-append (ground (arith, every-append test s t))

dashed_of_base32 : (c : ℕ) → is_base32 c ≡ true → is_dashed c ≡ true
dashed_of_base32 c h = rw h refl

graphic_of_dashed : (c : ℕ) → is_dashed c ≡ true → is_graphic c ≡ true
graphic_of_dashed c h = ground arith

kept_of_base32 : (c : ℕ) → is_base32 c ≡ true → is_separator c ≡ false
unfolding is_separator
kept_of_base32 c h = ground arith

-- The groups of a text, joined by dashes, are made of its characters and dashes.
every-join :
    (gs : List String) → All (λ g. every is_base32 g ≡ true) gs → every is_dashed (join gs) ≡ true
unfolding join
every-join [] h = refl
every-join (g ∷ []) h = every-impl is_base32 is_dashed g dashed_of_base32 h.0
every-join (g ∷ k ∷ gs) h =
    let first = every-impl is_base32 is_dashed g dashed_of_base32 h.0 in
    every-append is_dashed g (append_text "-" (join (k ∷ gs))) first
      (every-append is_dashed "-" (join (k ∷ gs)) refl (every-join (k ∷ gs) h.1))

split_five :
    (a b c d e rest : Bool)
    → (a && (b && (c && (d && (e && rest))))) ≡ true
    → ((a && (b && (c && (d && (e && true))))) ≡ true) × (rest ≡ true)
split_five true true true true true rest h = (refl, h)
split_five true true true true false rest h = cc
split_five true true true false e rest h = cc
split_five true true false d e rest h = cc
split_five true false c d e rest h = cc
split_five false b c d e rest h = cc

every-groups :
    (s : String) → every is_base32 s ≡ true → All (λ g. every is_base32 g ≡ true) (groups s)
unfolding groups
every-groups nil h = tt
every-groups (a ◂ nil) h = (h, tt)
every-groups (a ◂ b ◂ nil) h = (h, tt)
every-groups (a ◂ b ◂ c ◂ nil) h = (h, tt)
every-groups (a ◂ b ◂ c ◂ d ◂ nil) h = (h, tt)
every-groups (a ◂ b ◂ c ◂ d ◂ e ◂ nil) h = (h, tt)
every-groups (a ◂ b ◂ c ◂ d ◂ e ◂ f ◂ s) h =
    let (first, rest) =
      split_five (is_base32 (code a)) (is_base32 (code b)) (is_base32 (code c)) (is_base32 (code d))
        (is_base32 (code e)) (every is_base32 (f ◂ s)) h in
    (first, every-groups (f ◂ s) rest)

strip-append : (s t : String) → strip (append_text s t) ≡ append_text (strip s) (strip t)
unfolding strip is_separator
strip-append nil t = rw (nil-append (strip t)) (ap strip (nil-append t))
strip-append (c ◂ s) t = elim (Bool-cases (is_separator (code c))) [
  | inl h ↦ rw (cons-append, h) (strip-append s t)
  | inr h ↦ rw (cons-append, h, cons-append, strip-append s t) refl
]

strip-every : (s : String) → every is_base32 s ≡ true → strip s ≡ s
unfolding strip
strip-every nil h = refl
strip-every (c ◂ s) h = ground (arith, kept_of_base32 (code c), strip-every s)

abbrev flat : List String → String
flat [] = nil
flat (g ∷ gs) = append_text g (flat gs)

flat-groups : (s : String) → flat (groups s) ≡ s
unfolding groups
flat-groups nil = refl
flat-groups (a ◂ nil) = text_append-nil _
flat-groups (a ◂ b ◂ nil) = text_append-nil _
flat-groups (a ◂ b ◂ c ◂ nil) = text_append-nil _
flat-groups (a ◂ b ◂ c ◂ d ◂ nil) = text_append-nil _
flat-groups (a ◂ b ◂ c ◂ d ◂ e ◂ nil) = text_append-nil _
flat-groups (a ◂ b ◂ c ◂ d ◂ e ◂ f ◂ s) =
    rw
      (
        cons-append,
        cons-append,
        cons-append,
        cons-append,
        cons-append,
        nil-append,
        flat-groups (f ◂ s),
      )
      refl

strip-join : (gs : List String) → All (λ g. every is_base32 g ≡ true) gs → strip (join gs) ≡ flat gs
unfolding join
strip-join [] h = unfold strip in refl
strip-join (g ∷ []) h = rw text_append-nil (strip-every g h.0)
strip-join (g ∷ k ∷ gs) h =
    let dash : strip "-" ≡ nil = unfold strip is_separator in refl in
    rw (strip-append, strip-append, dash, nil-append, strip-every g h.0, strip-join (k ∷ gs) h.1)
      refl

upper-every :
    (p : Packages) → PrintsBase32 p → (s : String) → every is_dashed s ≡ true → upper p s ≡ s
unfolding upper
upper-every p law nil h = refl
upper-every p law (c ◂ s) h = ground (arith, law.is_upper c, upper-every p law s)

-- A pairing code as it is shown, in groups of five with dashes between, is normalized to the text
-- that base32 printed, and so it is stored and looked up under the hash of that text. The condition is
-- on the packages: base32 prints letters and digits of its alphabet, and unicode.ToUpper leaves those
-- and the dash as they are.
pub normalize_code-human_code :
    (p : Packages)
    → PrintsBase32 p
    → (value : Bytes) (shown : String) → human_code p (some value) ≡ ok shown
    → (normalize_code p shown ≡ p.encode_base32 value)
      × (hash_code p shown ≡ p.encode_hex (p.sha256 (utf8 (p.encode_base32 value))))
unfolding human_code hash_code
normalize_code-human_code p law value shown e =
    (same, ap (λ t. p.encode_hex (p.sha256 (utf8 t))) same)
  where
    raw : every is_base32 (p.encode_base32 value) ≡ true
    raw = law.in_alphabet value

    gs : List String
    gs = groups (p.encode_base32 value)

    dashed : every is_dashed (join gs) ≡ true
    dashed = every-join gs (every-groups _ raw)

    graphic : every is_graphic (join gs) ≡ true
    graphic = every-impl is_dashed is_graphic (join gs) graphic_of_dashed dashed

    is_joined : shown ≡ join gs
    is_joined = cc

    same : normalize_code p shown ≡ p.encode_base32 value
    same =
        ap (normalize_code p) is_joined
        ∙ unfold normalize_code in
          ap (λ t. strip (upper p t)) (trim_space-every (join gs) graphic)
          ∙ ap strip (upper-every p law (join gs) dashed)
          ∙ strip-join gs (every-groups _ raw)
          ∙ flat-groups _
