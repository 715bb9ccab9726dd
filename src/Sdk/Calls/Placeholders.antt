-- ===== src/Sdk/Calls/Placeholders.antt =====
-- The two patterns of sdk/service.py: PLACEHOLDER, for a whole value, and ANY_PLACEHOLDER. A name
-- is letters, digits and `_`, not a digit first; names are joined by dots.
use Prim.Native.Char.{code}
use navigator_orchestrator_a.Prelude.{
  ℕ, String, Bool, false, ◌&&◌, ◌||◌, if◌then◌else◌, Option, none, some, List, [], ◌∷◌, ◌==◌, leb,
  join, str_eq, non_empty,
}

unfoldable pub starts_name : ℕ → Bool
starts_name n = (leb b'A' n && leb n b'Z') || (leb b'a' n && leb n b'z') || n == 95

unfoldable pub in_name : ℕ → Bool
unfolding starts_name
in_name n = starts_name n || (leb b'0' n && leb n b'9')

unfoldable pub begins : String → Bool
unfolding starts_name
begins String.[] = false
begins (String.◌∷◌ c s) = starts_name (code c)

-- The rest of a dotted name, as long as it goes.
unfoldable pub more : String → String
unfolding in_name begins
more String.[] = String.[]
more (String.◌∷◌ c s) =
    let rest = more s in
    if in_name (code c) || (code c == b'.' && begins s) then String.◌∷◌ c rest else String.[]

-- The dotted name at the front, or the empty text.
unfoldable pub dotted : String → String
unfolding more begins
dotted s = if begins s then more s else ""

-- ANY_PLACEHOLDER.findall(s): a name holds no dollar, so the search may go on behind the dollar.
unfoldable pub find_all : String → List String
unfolding dotted
find_all String.[] = []
find_all (String.◌∷◌ c s) =
    let rest = find_all s in
    if code c == b'$' && non_empty (dotted s) then dotted s ∷ rest else rest

-- PLACEHOLDER.match(s).group(1); `$` also matches before a line feed that ends the text
unfoldable pub placeholder : String → Option String
unfolding dotted
placeholder String.[] = none
placeholder (String.◌∷◌ c s) =
    if code c == b'$'
      && non_empty (dotted s)
      && (str_eq s (dotted s) || str_eq s (join (dotted s) "\n"))
    then some (dotted s)
    else none
