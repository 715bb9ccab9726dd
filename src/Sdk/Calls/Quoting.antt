-- ===== src/Sdk/Calls/Quoting.antt =====
-- `urllib.parse.quote(text, safe="")`: letters, digits and `_.-~` stay, any other character is the
-- percent-encoding of its bytes in UTF-8.
use Prim.Native.Char.{code}
use Prim.Native.String.append
use navigator_orchestrator_a.Prelude.{
  ℕ, ◌+◌, String, Bool, true, ◌≡◌, refl, ◌∙◌, ap, ◌&&◌, ◌||◌, if◌then◌else◌, List, [], ◌∷◌, ◌==◌,
  ltb, leb, join, zero, suc, All, arith, Bool-cases, inl, inr,
}
use navigator_orchestrator_a.Prelude.Splitting.{free}
use Prim.Native.Nat.{◌/◌, ◌%◌}

unfoldable pub stays : ℕ → Bool
stays n =
    (leb b'A' n && leb n b'Z')
    || (leb b'a' n && leb n b'z')
    || (leb b'0' n && leb n b'9')
    || n == 95
    || n == 46
    || n == 45
    || n == 126

-- The bytes of a character in UTF-8.
unfoldable pub utf8 : ℕ → List ℕ
utf8 n =
    if ltb n 128
    then n ∷ []
    else if ltb n 2048
    then (192 + n / 64) ∷ (128 + n % 64) ∷ []
    else if ltb n 65536
    then (224 + n / 4096) ∷ (128 + n / 64 % 64) ∷ (128 + n % 64) ∷ []
    else (240 + n / 262144) ∷ (128 + n / 4096 % 64) ∷ (128 + n / 64 % 64) ∷ (128 + n % 64) ∷ []

abbrev hex_digits : List String
hex_digits =
    "0" ∷ "1" ∷ "2" ∷ "3" ∷ "4" ∷ "5" ∷ "6" ∷ "7" ∷ "8" ∷ "9" ∷ "A" ∷ "B" ∷ "C" ∷ "D" ∷ "E" ∷ "F"
    ∷ []

unfoldable pub nth : ℕ → List String → String
nth n [] = ""
nth zero (s ∷ ss) = s
nth (suc n) (s ∷ ss) = nth n ss

unfoldable pub hex : ℕ → String
unfolding nth
hex n = nth n hex_digits

unfoldable pub percent : List ℕ → String
unfolding hex
percent [] = ""
percent (byte ∷ bytes) =
    let rest = percent bytes in join "%" (join (hex (byte / 16)) (join (hex (byte % 16)) rest))

unfoldable pub quote : String → String
unfolding stays utf8 percent
quote String.[] = String.[]
quote (String.◌∷◌ c s) =
    let rest = quote s in
    if stays (code c) then String.◌∷◌ c rest else join (percent (utf8 (code c))) rest

-- No slash is in the text.
abbrev pub slash_free : String → Bool
slash_free = free b'/'

slash_free-join :
    (s t : String) → slash_free s ≡ true → slash_free t ≡ true → slash_free (join s t) ≡ true
slash_free-join String.[] t hs ht = ap slash_free (append.nil t) ∙ ht
slash_free-join (String.◌∷◌ c s) t hs ht =
    let rest = slash_free-join s t (ground arith) ht in
    ap slash_free (append.cons c s t) ∙ ground arith

nth-slash_free :
    (n : ℕ) (ss : List String) → All (λ s. slash_free s ≡ true) ss → slash_free (nth n ss) ≡ true
unfolding nth
nth-slash_free n [] h = refl
nth-slash_free zero (s ∷ ss) h = h.0
nth-slash_free (suc n) (s ∷ ss) h = nth-slash_free n ss h.1

hex-slash_free : (n : ℕ) → slash_free (hex n) ≡ true
unfolding hex
hex-slash_free n = nth-slash_free n hex_digits (
  refl,
  (
    refl,
    (
      refl,
      (
        refl,
        (
          refl,
          (
            refl,
            (refl, (refl, (refl, (refl, (refl, (refl, (refl, (refl, (refl, (refl, tt)))))))))),
          ),
        ),
      ),
    ),
  ),
)

percent-slash_free : (bytes : List ℕ) → slash_free (percent bytes) ≡ true
unfolding percent
percent-slash_free [] = refl
percent-slash_free (byte ∷ bytes) =
    let rest = percent bytes in
    let low = hex (byte % 16) in
    let high = hex (byte / 16) in
    slash_free-join "%" (join high (join low rest)) refl (
      slash_free-join high (join low rest) (hex-slash_free (byte / 16))
        (slash_free-join low rest (hex-slash_free (byte % 16)) (percent-slash_free bytes)))

-- A quoted value holds no slash, whatever the value holds.
pub quote-slash_free : (s : String) → slash_free (quote s) ≡ true
unfolding quote stays
quote-slash_free String.[] = refl
quote-slash_free (String.◌∷◌ c s) =
    let rest = quote-slash_free s in
    elim (Bool-cases (stays (code c))) [
      | inl kept ↦ rw (kept, quote) (ground arith)
      | inr coded ↦
          rw (coded, quote)
            (slash_free-join (percent (utf8 (code c))) (quote s)
              (percent-slash_free (utf8 (code c))) rest)
    ]
