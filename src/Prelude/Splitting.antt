-- ===== src/Prelude/Splitting.antt =====
-- `split` at one character and `join` with it.
use Prim.Native.Nat.{ℕ}
use Prim.Native.Char.{Char, code}
use Prim.Native.String.{String}
use Prim.Native.String.append
use mathlib.Core.Path.{◌≡◌, refl, sym, ap, ◌∙◌}
use mathlib.Core.Logic.{inl, inr}
use mathlib.Core.Bool.{Bool, true, false, not, ◌&&◌}
use mathlib.Core.List.{List, [], ◌∷◌}
use native.Mathlib.Omega.{arith}
use text.Mathlib.TextEquality.{codes_equal}
use navigator_orchestrator_a.Prelude.Tests.{◌==◌, Bool-cases}
use navigator_orchestrator_a.Prelude.Lists.{All}
use navigator_orchestrator_a.Prelude.Texts.{join, join_all, split_at, onto_head, has_text}

onto_head-cons :
    (c : Char) (ps : List String)
    → (head : String) × (tail : List String) × (onto_head c ps ≡ head ∷ tail)
onto_head-cons c [] = (_, [], refl)
onto_head-cons c (p ∷ ps) = (_, ps, refl)

-- What `split` gives is never empty.
pub split_at-cons :
    (sep : ℕ) (s : String) → (head : String) × (tail : List String) × (split_at sep s ≡ head ∷ tail)
split_at-cons sep String.[] = ("", [], refl)
split_at-cons sep (String.◌∷◌ c s) = elim (Bool-cases (code c == sep)) [
  | inl same ↦ ("", split_at sep s, rw (same, split_at) refl)
  | inr other ↦
      let (head, tail, q) = onto_head-cons c (split_at sep s) in
      (head, tail, rw (other, split_at) q)
]

join_all-onto_head :
    (sep : String) (c : Char) (ps : List String)
    → join_all sep (onto_head c ps) ≡ String.◌∷◌ c (join_all sep ps)
join_all-onto_head sep c [] = refl
join_all-onto_head sep c (p ∷ []) = refl
join_all-onto_head sep c (p ∷ q ∷ qs) = append.cons c p (join sep (join_all sep (q ∷ qs)))

-- Joined again with the character it was split at, a text is what it was.
pub join_all-split_at :
    (d : Char) (s : String) → join_all (String.◌∷◌ d String.[]) (split_at (code d) s) ≡ s
join_all-split_at d String.[] = refl
join_all-split_at d (String.◌∷◌ c s) =
    let sep = String.◌∷◌ d String.[] in
    let rest = join_all-split_at d s in
    elim (Bool-cases (code c == code d)) [
      | inl same ↦
          let (head, tail, q) = split_at-cons (code d) s in
          let whole : join_all sep (head ∷ tail) ≡ s = rw⁻¹ q rest in
          let equal : c ≡ d = codes_equal c d (ground arith) in
          rw (same, split_at, q)
            (append.nil (join sep (join_all sep (head ∷ tail)))
              ∙ append.cons d "" (join_all sep (head ∷ tail))
              ∙ ap (λ t. String.◌∷◌ d t) (append.nil (join_all sep (head ∷ tail)) ∙ whole)
              ∙ ap (λ e. String.◌∷◌ e s) (sym equal))
      | inr other ↦
          rw (other, split_at)
            (join_all-onto_head sep c (split_at (code d) s) ∙ ap (λ t. String.◌∷◌ c t) rest)
    ]

onto_head-single :
    (sep : ℕ) (c : Char) (ps : List String)
    → (code c == sep) ≡ false
    → All (λ p. split_at sep p ≡ p ∷ []) ps
    → All (λ p. split_at sep p ≡ p ∷ []) (onto_head c ps)
onto_head-single sep c [] n h = (rw (n, split_at) refl, tt)
onto_head-single sep c (p ∷ ps) n h = (rw (n, split_at, h.0) refl, h.1)

-- The pieces have nothing left to split.
pub split_at-single : (sep : ℕ) (s : String) → All (λ p. split_at sep p ≡ p ∷ []) (split_at sep s)
split_at-single sep String.[] = (refl, tt)
split_at-single sep (String.◌∷◌ c s) = elim (Bool-cases (code c == sep)) [
  | inl same ↦ rw (same, split_at) (refl, split_at-single sep s)
  | inr other ↦
      rw (other, split_at) (onto_head-single sep c (split_at sep s) other (split_at-single sep s))
]

-- A text with a character that is no space is not blank.
pub has_text-colon : (s t : String) → has_text (join s (join ":" t)) ≡ true
has_text-colon String.[] t = ap has_text (append.nil (join ":" t) ∙ append.cons ":" "" t)
has_text-colon (String.◌∷◌ c s) t =
    ap has_text (append.cons c s (join ":" t)) ∙ ground (arith, has_text-colon s t)

-- No character of the text is `sep`.
abbrev pub free : ℕ → String → Bool
free sep String.[] = true
free sep (String.◌∷◌ c s) = not (code c == sep) && free sep s

free-onto_head :
    (sep : ℕ) (c : Char) (ps : List String)
    → (code c == sep) ≡ false
    → All (λ p. free sep p ≡ true) ps
    → All (λ p. free sep p ≡ true) (onto_head c ps)
free-onto_head sep c [] n h = (ground arith, tt)
free-onto_head sep c (p ∷ ps) n h = (ground (arith, h.0), h.1)

pub split_at-free : (sep : ℕ) (s : String) → All (λ p. free sep p ≡ true) (split_at sep s)
split_at-free sep String.[] = (refl, tt)
split_at-free sep (String.◌∷◌ c s) = elim (Bool-cases (code c == sep)) [
  | inl same ↦ rw (same, split_at) (refl, split_at-free sep s)
  | inr other ↦
      rw (other, split_at) (free-onto_head sep c (split_at sep s) other (split_at-free sep s))
]

split_at-joined :
    (d : Char) (s t : String)
    → free (code d) s ≡ true
    → split_at (code d) (join s (String.◌∷◌ d t)) ≡ s ∷ split_at (code d) t
split_at-joined d String.[] t h =
    let here : (code d == code d) ≡ true = ground arith in
    ap (split_at (code d)) (append.nil (String.◌∷◌ d t)) ∙ rw (here, split_at) refl
split_at-joined d (String.◌∷◌ c s) t h =
    let other : (code c == code d) ≡ false = ground arith in
    let rest = split_at-joined d s t (ground arith) in
    ap (split_at (code d)) (append.cons c s (String.◌∷◌ d t)) ∙ rw (other, split_at, rest) refl

split_at_alone : (d : Char) (s : String) → free (code d) s ≡ true → split_at (code d) s ≡ s ∷ []
split_at_alone d String.[] h = refl
split_at_alone d (String.◌∷◌ c s) h =
    let other : (code c == code d) ≡ false = ground arith in
    let rest = split_at_alone d s (ground arith) in rw (other, split_at, rest) refl

-- Pieces without the character are found again behind `join` with it.
pub split_at-join_all :
    (d : Char) (p : String) (ps : List String)
    → All (λ q. free (code d) q ≡ true) (p ∷ ps)
    → split_at (code d) (join_all (String.◌∷◌ d String.[]) (p ∷ ps)) ≡ p ∷ ps
split_at-join_all d p [] h = split_at_alone d p h.0
split_at-join_all d p (q ∷ qs) h =
    let sep = String.◌∷◌ d String.[] in
    let rest = join_all sep (q ∷ qs) in
    let shape : join sep rest ≡ String.◌∷◌ d rest =
      append.cons d "" rest ∙ ap (λ t. String.◌∷◌ d t) (append.nil rest) in
    ap (λ t. split_at (code d) (join p t)) shape
    ∙ split_at-joined d p rest h.0
    ∙ ap (λ l. p ∷ l) (split_at-join_all d q qs h.1)
