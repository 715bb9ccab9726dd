-- ===== src/Prelude/Texts.antt =====
-- Python's `str` operations that the program uses: slices, `split` at one character, order.
use Prim.Native.Nat.{ℕ, zero, suc, ◌+◌, compare, Ordering}
use Prim.Native.Char.{Char, code}
use Prim.Native.String.{String, ◌++◌}
use mathlib.Core.Bool.{Bool, true, false, ◌||◌, ◌&&◌, not}
use mathlib.Core.List.{List, ◌∷◌}
use text.Mathlib.Text.{◌==◌ as str_eq}
use navigator_orchestrator_a.Prelude.Tests.{◌==◌, leb, if◌then◌else◌}

-- s[:n]
abbrev pub truncate : ℕ → String → String
truncate zero s = String.[]
truncate (suc n) String.[] = String.[]
truncate (suc n) (String.◌∷◌ c s) = String.◌∷◌ c (truncate n s)

-- s < t, by code points
abbrev pub str_lt : String → String → Bool
str_lt String.[] String.[] = false
str_lt String.[] (String.◌∷◌ d t) = true
str_lt (String.◌∷◌ c s) String.[] = false
str_lt (String.◌∷◌ c s) (String.◌∷◌ d t) =
    let rest = str_lt s t in
    elim (compare (code c) (code d)) [
      | Ordering.lt ↦ true
      | Ordering.gt ↦ false
      | Ordering.eq ↦ rest
    ]

-- bool(s)
abbrev pub non_empty : String → Bool
non_empty String.[] = false
non_empty (String.◌∷◌ c s) = true

-- s + t
abbrev pub join : String → String → String
join s t = s ++ t

abbrev pub onto_head : Char → List String → List String
onto_head c List.[] = String.◌∷◌ c String.[] ∷ List.[]
onto_head c (piece ∷ pieces) = String.◌∷◌ c piece ∷ pieces

-- s.split(sep), for a separator of one character
abbrev pub split_at : ℕ → String → List String
split_at sep String.[] = String.[] ∷ List.[]
split_at sep (String.◌∷◌ c s) =
    let rest = split_at sep s in if code c == sep then String.[] ∷ rest else onto_head c rest

-- s in names
abbrev pub one_of : String → List String → Bool
one_of s List.[] = false
one_of s (t ∷ ts) = str_eq s t || one_of s ts

-- The characters that `repr` escapes among the printable ones: the quote that it puts round.
abbrev escape : ℕ → String → String
escape quote String.[] = String.[]
escape quote (String.◌∷◌ c s) =
    let rest = escape quote s in
    if code c == b'\\' || code c == quote
    then String.◌∷◌ "\\" (String.◌∷◌ c rest)
    else String.◌∷◌ c rest

abbrev holds_char : ℕ → String → Bool
holds_char n String.[] = false
holds_char n (String.◌∷◌ c s) = code c == n || holds_char n s

-- repr(s), for printable text
abbrev pub repr : String → String
repr s =
    if holds_char 39 s && not (holds_char 34 s)
    then join "\"" (join (escape 34 s) "\"")
    else join "'" (join (escape 39 s) "'")

-- sep.join(pieces)
abbrev pub join_all : String → List String → String
join_all sep List.[] = String.[]
join_all sep (s ∷ List.[]) = s
join_all sep (s ∷ t ∷ ts) = join s (join sep (join_all sep (t ∷ ts)))

-- c.isspace()
abbrev pub is_space : ℕ → Bool
is_space n =
    n == 32
    || (leb 9 n && leb n 13)
    || (leb 28 n && leb n 31)
    || n == 133
    || n == 160
    || n == 5760
    || (leb 8192 n && leb n 8202)
    || n == 8232
    || n == 8233
    || n == 8239
    || n == 8287
    || n == 12288

-- bool(s.strip())
abbrev pub has_text : String → Bool
has_text String.[] = false
has_text (String.◌∷◌ c s) = not (is_space (code c)) || has_text s

-- s.rstrip()
abbrev pub rstrip : String → String
rstrip String.[] = String.[]
rstrip (String.◌∷◌ c s) =
    let rest = rstrip s in
    if is_space (code c) && not (non_empty rest) then String.[] else String.◌∷◌ c rest

-- s.lstrip()
abbrev pub lstrip : String → String
lstrip String.[] = String.[]
lstrip (String.◌∷◌ c s) = let rest = lstrip s in if is_space (code c) then rest else String.◌∷◌ c s

-- s.strip()
abbrev pub strip : String → String
strip s = lstrip (rstrip s)

-- The code of the small letter, for A to Z.
abbrev small : ℕ → ℕ
small n = if leb b'A' n && leb n b'Z' then n + 32 else n

-- s.lower() == t, for a text t of the letters a, f, i, l, p and s, which no letter outside ASCII
-- is the capital of
abbrev pub lower_is : String → String → Bool
lower_is String.[] String.[] = true
lower_is (String.◌∷◌ c s) (String.◌∷◌ d t) = small (code c) == code d && lower_is s t
lower_is _ _ = false
