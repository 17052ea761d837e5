-- ===== src/Guard/Regex/Syntax.antt =====
-- The syntax of the expressions that internal/guard compiles: a leading `(?i)`, literals, `.`, classes,
-- escapes, groups, `|`, and the repetitions `* + ? {m} {m,} {m,n}`.
use agent_claw.Base.{
  ℕ, zero, suc, ◌+◌, ◌-◌, ◌*◌, String, Bool, true, false, ◌&&◌, List, [], ◌∷◌, ◌++◌, Option, none,
  some, if◌then◌else◌, leb, eqb, starts_with, slice, len,
}
use agent_claw.Guard.Regex.{
  Regex, empty, set, text_start, text_end, word_edge, seq, alt, star, codes, word_ranges,
}

pub data Token : Type 0 where
  atom : Regex → Token
  left_paren right_paren bar : Token
  counted : ℕ → Option ℕ → Token

-- A class that is read: whether it is negated, whether nothing was read yet, its ranges, the character that
-- may begin a range, and whether a dash followed it.
pub record Class : Type 0 where
  pub negated : Bool
  pub fresh : Bool
  pub ranges : List (ℕ × ℕ)
  pub pending : Option ℕ
  pub dashed : Bool

pub data Mode : Type 0 where
  plain escape : Mode
  class class_escape : Class → Mode
  class_hex : Class → ℕ → Mode
  count : Option ℕ → ℕ → Mode

abbrev one : ℕ → List (ℕ × ℕ)
one c = (c, c) ∷ []

-- `\s`.
abbrev space_ranges : List (ℕ × ℕ)
space_ranges = (9, 10) ∷ (12, 13) ∷ (32, 32) ∷ []

-- A class with one more character.
add_char : ℕ → Class → Class
add_char c k = elim k.pending [
  | none ↦ record k { fresh = false; pending = some c }
  | some low ↦
      if k.dashed
      then record k { fresh = false; ranges = (low, c) ∷ k.ranges; pending = none; dashed = false }
      else record k { fresh = false; ranges = (low, low) ∷ k.ranges; pending = some c }
]

add_dash : Class → Class
unfolding add_char
add_dash k = elim k.pending [
  | none ↦ add_char b'-' k
  | some low ↦ if k.dashed then add_char b'-' k else record k { dashed = true }
]

closed : Class → List (ℕ × ℕ)
closed k = elim k.pending [
  | none ↦ k.ranges
  | some c ↦ (c, c) ∷ (if k.dashed then (b'-', b'-') ∷ k.ranges else k.ranges)
]

abbrev opened : Class
opened = record { negated = false; fresh = true; ranges = []; pending = none; dashed = false }

hex_digit : ℕ → ℕ
hex_digit c = if leb c b'9' then c - b'0' else if leb b'a' c then c - b'a' + 10 else c - b'A' + 10

-- One character outside a class.
plain_step : Bool → ℕ → Mode × List Token
plain_step fold c =
    if eqb c b'\\'
    then (escape, [])
    else if eqb c b'['
    then (class opened, [])
    else if eqb c b'{'
    then (count none 0, [])
    else if eqb c b'('
    then (plain, left_paren ∷ [])
    else if eqb c b')'
    then (plain, right_paren ∷ [])
    else if eqb c b'|'
    then (plain, bar ∷ [])
    else if eqb c b'*'
    then (plain, counted 0 none ∷ [])
    else if eqb c b'+'
    then (plain, counted 1 none ∷ [])
    else if eqb c b'?'
    then (plain, counted 0 (some 1) ∷ [])
    else if eqb c b'.'
    then (plain, atom (set false true (one 10)) ∷ [])
    else if eqb c b'^'
    then (plain, atom text_start ∷ [])
    else if eqb c b'$'
    then (plain, atom text_end ∷ [])
    else (plain, atom (set fold false (one c)) ∷ [])

escaped : Bool → ℕ → Regex
escaped fold c =
    if eqb c b'b'
    then word_edge
    else if eqb c b's'
    then set fold false space_ranges
    else if eqb c b'w'
    then set fold false word_ranges
    else set fold false (one c)

class_step : Bool → Class → ℕ → Mode × List Token
unfolding add_char add_dash closed
class_step fold k c =
    if eqb c b']'
    then (plain, atom (set fold k.negated (closed k)) ∷ [])
    else if eqb c b'\\'
    then (class_escape k, [])
    else if eqb c b'^' && k.fresh
    then (class (record k { negated = true; fresh = false }), [])
    else if eqb c b'-'
    then (class (add_dash k), [])
    else (class (add_char c k), [])

class_escape_step : Class → ℕ → Mode
unfolding add_char
class_escape_step k c =
    if eqb c b's'
    then class (record k { fresh = false; ranges = space_ranges ++ k.ranges })
    else if eqb c b'x'
    then class_hex k 0
    else class (add_char c k)

class_hex_step : Class → ℕ → ℕ → Mode
unfolding add_char hex_digit
class_hex_step k n c =
    if eqb c b'{'
    then class_hex k n
    else if eqb c b'}'
    then class (add_char n k)
    else class_hex k (n * 16 + hex_digit c)

-- The bounds `{m}`, `{m,}` and `{m,n}`; the comma puts the first number aside, and no second number is 0.
count_step : Option ℕ → ℕ → ℕ → Mode × List Token
count_step first n c =
    if eqb c b'}'
    then (
      plain,
      elim first [
        | none ↦ counted n (some n) ∷ []
        | some m ↦ counted m (if eqb n 0 then none else some n) ∷ []
      ],
    )
    else if eqb c b','
    then (count (some n) 0, [])
    else (count first (n * 10 + (c - b'0')), [])

lex_step : Bool → Mode → ℕ → Mode × List Token
unfolding plain_step escaped class_step class_escape_step class_hex_step count_step
lex_step fold plain c = plain_step fold c
lex_step fold escape c = (plain, atom (escaped fold c) ∷ [])
lex_step fold (class k) c = class_step fold k c
lex_step fold (class_escape k) c = (class_escape_step k c, [])
lex_step fold (class_hex k n) c = (class_hex_step k n c, [])
lex_step fold (count first n) c = count_step first n c

lex : Bool → Mode → List ℕ → List Token
unfolding lex_step
lex fold mode [] = []
lex fold mode (c ∷ cs) = let (next, tokens) = lex_step fold mode c in tokens ++ lex fold next cs

-- A group that is read: the alternatives before the last bar, and the parts since, the last one first.
pub record Group : Type 0 where
  pub before : Option Regex
  pub parts : List Regex

abbrev new_group : Group
new_group = record { before = none; parts = [] }

sequence : List Regex → Regex → Regex
sequence [] r = r
sequence (p ∷ parts) r = sequence parts (seq p r)

alternative : Option Regex → Regex → Regex
alternative none r = r
alternative (some l) r = alt l r

group_regex : Group → Regex
unfolding sequence alternative
group_regex g = alternative g.before (sequence g.parts empty)

copies : ℕ → Regex → Regex → Regex
copies zero r rest = rest
copies (suc n) r rest = seq r (copies n r rest)

options : ℕ → Regex → Regex
options zero r = empty
options (suc n) r = alt (seq r (options n r)) empty

repeated : ℕ → Option ℕ → Regex → Regex
unfolding copies options
repeated m none r = copies m r (star r)
repeated m (some n) r = copies m r (options (n - m) r)

-- The groups that are open, the innermost first.
parse : List Token → Group → List Group → Option Regex
unfolding group_regex repeated
parse [] g [] = some (group_regex g)
parse [] g (outer ∷ others) = none
parse (atom r ∷ tokens) g outer = parse tokens (record g { parts = r ∷ g.parts }) outer
parse (left_paren ∷ tokens) g outer = parse tokens new_group (g ∷ outer)
parse (right_paren ∷ tokens) g [] = none
parse (right_paren ∷ tokens) g (o ∷ outer) =
    parse tokens (record o { parts = group_regex g ∷ o.parts }) outer
parse (bar ∷ tokens) g outer =
    parse tokens (record { before = some (group_regex g); parts = [] }) outer
parse (counted m n ∷ tokens) g outer = elim g.parts [
  | [] ↦ none
  | r ∷ parts ↦ parse tokens (record g { parts = repeated m n r ∷ parts }) outer
]

-- `regexp.Compile`, for this syntax.
unfoldable pub compile : String → Option Regex
unfolding lex parse codes
compile s =
    let fold = starts_with s "(?i)" in
    parse (lex fold plain (codes (if fold then slice s 4 (len s) else s))) new_group []
