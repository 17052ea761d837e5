-- ===== src/Guard/Regex/Search.antt =====
-- Laws of the search for a match.
use Prim.Native.Char.{code}
use Prim.Native.String.{[] as nil, ◌∷◌ as ◌cons◌}
use text.Mathlib.TextLemmas.{nil-append, cons-append}
use agent_claw.Base.{
  ◌≡◌, refl, ap, ◌∙◌, ℕ, String, Bool, true, false, List, [], ◌∷◌, ◌++◌, Option, none, some, ◌⧺◌,
  ◌||◌,
}
use agent_claw.Guard.Regex.{Regex, matches, search_from, match_string, codes}

pub codes-append : (s t : String) → codes (s ⧺ t) ≡ codes s ++ codes t
unfolding codes
codes-append nil t = ap codes (nil-append t)
codes-append (c cons s) t = ap codes (cons-append c s t) ∙ ap (λ l. code c ∷ l) (codes-append s t)

or_right : (a b : Bool) → b ≡ true → (a || b) ≡ true
or_right true b h = refl
or_right false b h = h

-- The head of a text is one of its suffixes.
search_here :
    (r : Regex) (before : Option ℕ) (cs : List ℕ)
    → matches r (λ p. true) (before, cs) ≡ true
    → search_from r before cs ≡ true
unfolding search_from
search_here r before [] h = h
search_here r before (c ∷ cs) h = rw h refl

search_later :
    (r : Regex) (before : Option ℕ) (c : ℕ) (cs : List ℕ)
    → search_from r (some c) cs ≡ true
    → search_from r before (c ∷ cs) ≡ true
unfolding search_from
search_later r before c cs h = or_right (matches r (λ p. true) (before, c ∷ cs)) _ h

-- A match at the beginning of a suffix, whatever stands before it, is found.
search_suffix :
    (r : Regex) (before : Option ℕ) (xs suffix : List ℕ)
    → ((b : Option ℕ) → matches r (λ p. true) (b, suffix) ≡ true)
    → search_from r before (xs ++ suffix) ≡ true
search_suffix r before [] suffix h = search_here r before suffix (h before)
search_suffix r before (x ∷ xs) suffix h =
    search_later r before x (xs ++ suffix) (search_suffix r (some x) xs suffix h)

pub match_string-append :
    (r : Regex) (s t : String)
    → ((b : Option ℕ) → matches r (λ p. true) (b, codes t) ≡ true)
    → match_string r (s ⧺ t) ≡ true
unfolding match_string
match_string-append r s t h = rw (codes-append s t) (search_suffix r none (codes s) (codes t) h)
