-- ===== src/Guard/Regex.antt =====
-- What internal/guard uses of Go's `regexp`: expressions and the search for a match. A text is its
-- code points; a place in it is the code point before it, if any, and those after it.
pub mod Syntax
pub mod Search
use Prim.Native.Char.{code}
use Prim.Native.String.{[] as nil, ◌∷◌ as ◌cons◌}
use agent_claw.Base.{
  ℕ, zero, suc, ◌+◌, ◌-◌, String, Bool, true, false, not, ◌&&◌, ◌||◌, List, [], ◌∷◌, Option, none,
  some, length, if◌then◌else◌, leb, ltb, eqb,
}

abbrev pub Place : Type 0
Place = Option ℕ × List ℕ

-- An expression. A set of characters has ranges; the first mark is that of `(?i)`, the second that of `^`.
pub data Regex : Type 0 where
  empty : Regex
  set : Bool → Bool → List (ℕ × ℕ) → Regex
  text_start text_end word_edge : Regex
  seq alt : Regex → Regex → Regex
  star : Regex → Regex

-- The code points of a text.
unfoldable pub codes : String → List ℕ
codes nil = []
codes (c cons s) = code c ∷ codes s

unfoldable pub in_ranges : ℕ → List (ℕ × ℕ) → Bool
in_ranges c [] = false
in_ranges c ((low, high) ∷ ranges) = (leb low c && leb c high) || in_ranges c ranges

is_lower : ℕ → Bool
is_lower c = leb b'a' c && leb c b'z'

is_upper : ℕ → Bool
is_upper c = leb b'A' c && leb c b'Z'

-- The simple case folding of the characters that have a letter of ASCII in their orbit.
folded : ℕ → ℕ
unfolding is_upper
folded c =
    if is_upper c then c + 32 else if eqb c 0x212a then b'k' else if eqb c 0x17f then b's' else c

-- The characters that fold to the same.
unfoldable pub orbit : ℕ → List ℕ
unfolding folded is_lower
orbit c =
    let f = folded c in
    if is_lower f
    then f ∷ (f - 32) ∷ (if eqb f b'k' then 0x212a ∷ [] else if eqb f b's' then 0x17f ∷ [] else [])
    else c ∷ []

any_in : List ℕ → List (ℕ × ℕ) → Bool
unfolding in_ranges
any_in [] ranges = false
any_in (c ∷ cs) ranges = in_ranges c ranges || any_in cs ranges

-- Whether a set has a character.
unfoldable pub has : Bool → Bool → List (ℕ × ℕ) → ℕ → Bool
unfolding any_in in_ranges orbit
has fold negated ranges c =
    let found = if fold then any_in (orbit c) ranges else in_ranges c ranges in
    if negated then not found else found

-- `\w`.
abbrev pub word_ranges : List (ℕ × ℕ)
word_ranges = (b'0', b'9') ∷ (b'A', b'Z') ∷ (b'_', b'_') ∷ (b'a', b'z') ∷ []

is_word : Option ℕ → Bool
unfolding in_ranges
is_word none = false
is_word (some c) = in_ranges c word_ranges

next_of : List ℕ → Option ℕ
next_of [] = none
next_of (c ∷ cs) = some c

differ : Bool → Bool → Bool
differ true b = not b
differ false b = b

-- The tests of the places where nothing is read.
unfoldable pub at_start : Place → Bool
at_start (none, rest) = true
at_start (some c, rest) = false

unfoldable pub at_end : Place → Bool
at_end (before, []) = true
at_end (before, c ∷ rest) = false

unfoldable pub at_edge : Place → Bool
unfolding differ is_word next_of
at_edge (before, rest) = differ (is_word before) (is_word (next_of rest))

unfoldable pub read : (ℕ → Bool) → (Place → Bool) → Place → Bool
read test k (before, []) = false
read test k (before, c ∷ rest) = test c && k (some c, rest)

-- Repetitions that make progress, with fuel; more than the text is long are never made.
unfoldable pub repeat : ℕ → ((Place → Bool) → Place → Bool) → (Place → Bool) → Place → Bool
repeat zero body k p = k p
repeat (suc fuel) body k p =
    k p || body (λ q. ltb (length q.1) (length p.1) && repeat fuel body k q) p

-- Whether an expression matches at a place so that what follows is accepted.
unfoldable pub matches : Regex → (Place → Bool) → Place → Bool
unfolding read at_start at_end at_edge repeat
matches empty k p = k p
matches (set fold negated ranges) k p = read (has fold negated ranges) k p
matches text_start k p = at_start p && k p
matches text_end k p = at_end p && k p
matches word_edge k p = at_edge p && k p
matches (seq r s) k p = matches r (matches s k) p
matches (alt r s) k p = matches r k p || matches s k p
matches (star r) k p = repeat (length p.1) (matches r) k p

-- A match at a place or later.
unfoldable pub search_from : Regex → Option ℕ → List ℕ → Bool
unfolding matches
search_from r before [] = matches r (λ p. true) (before, [])
search_from r before (c ∷ rest) =
    matches r (λ p. true) (before, c ∷ rest) || search_from r (some c) rest

-- `MatchString`.
unfoldable pub match_string : Regex → String → Bool
unfolding search_from codes
match_string r s = search_from r none (codes s)
