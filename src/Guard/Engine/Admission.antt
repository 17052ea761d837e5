-- ===== src/Guard/Engine/Admission.antt =====
-- What the checks of internal/guard/guard.go let through.
use agent_claw.Base.{
  ◌≡◌, refl, sym, ◌↔◌, ◌⊎◌, inl, inr, String, Bool, true, false, not, ◌&&◌, ◌||◌, List, [], ◌∷◌,
  Option, none, some, ◌==◌, eq_iff, All, lookup, if◌then◌else◌, arith, starts_with,
}
use mathlib.Core.Option.{none-ne-some}
use agent_claw.Guard.Types.{CommandPattern, re_matches, Verdict}
use agent_claw.Guard.Patterns.Commands.{command_patterns}
use agent_claw.Guard.Patterns.Injection.{injection_patterns}
use agent_claw.Guard.Patterns.Paths.{path_patterns}
use agent_claw.Guard.Patterns.Secrets.{secret_patterns}
use agent_claw.Guard.Patterns.Workflow.{role_binary_allowlist, role_write_path_prefixes}
use agent_claw.Guard.Engine.{
  first, or_else, verdict_by, holds, binary_rule, target_text, command_verdict, has_prefix_of,
  prefix_rule, is_exempt, file_verdict, output_verdict, input_verdict,
}

-- Some entry of a list.
abbrev pub Any {ℓ} : {A : Type ℓ} → (A → Type 0) → List A → Type 0
Any P [] = ⊥
Any P (x ∷ xs) = P x ⊎ Any P xs

-- Where the table has an entry, some of its items does it; an entry without items lets nothing through.
abbrev pub Listed : (String → Type 0) → Option (List String) → Type 0
Listed P none = Unit {0}
Listed P (some items) = Any P items

false-ne-true : false ≡ true → ⊥
false-ne-true h = ground arith

first-eq-none {ℓ} :
    {A : Type ℓ} (test : A → Bool) (xs : List A)
    → (first test xs ≡ none) ↔ All (λ x. test x ≡ false) xs
unfolding first
first-eq-none test [] = (λ h. tt, λ h. refl)
first-eq-none test (x ∷ xs) = ground (arith, first-eq-none test xs)

verdict_by-eq-none {ℓ} :
    {A : Type ℓ} (f : A → Verdict) (o : Option A) → (verdict_by f o ≡ none) ↔ (o ≡ none)
unfolding verdict_by
verdict_by-eq-none f none = ground arith
verdict_by-eq-none f (some a) = ground arith

-- A scan of a table finds nothing exactly when no entry matches.
scan-eq-none {ℓ} :
    {A : Type ℓ} (f : A → Verdict) (test : A → Bool) (xs : List A)
    → (verdict_by f (first test xs) ≡ none) ↔ All (λ x. test x ≡ false) xs
scan-eq-none f test xs =
    let (there, back) = verdict_by-eq-none f (first test xs) in
    let (all, again) = first-eq-none test xs in (λ h. all (there h), λ h. back (again h))

or_else-eq-none : (v w : Option Verdict) → (or_else v w ≡ none) ↔ ((v ≡ none) × (w ≡ none))
unfolding or_else
or_else-eq-none none w = (λ h. (refl, h), λ h. h.1)
or_else-eq-none (some v) w = (λ h. (h, absurd (none-ne-some v (sym h))), λ h. h.0)

or_iff : (a b : Bool) {P Q : Type 0} → (a ≡ true) ↔ P → (b ≡ true) ↔ Q → ((a || b) ≡ true) ↔ (P ⊎ Q)
or_iff true b p q = (λ h. inl (p.0 h), λ h. refl)
or_iff false b p q =
    (λ h. inr (q.0 h), λ h. elim h [ inl x ↦ absurd (false-ne-true (p.1 x)) | inr y ↦ q.1 y ])

holds_iff : (s : String) (xs : List String) → (holds s xs ≡ true) ↔ Any (λ x. x ≡ s) xs
unfolding holds
holds_iff s [] = (λ h. absurd (false-ne-true h), λ h. absurd h)
holds_iff s (x ∷ xs) = or_iff (x == s) (holds s xs) (eq_iff x s) (holds_iff s xs)

prefix_iff :
    (path : String) (xs : List String)
    → (has_prefix_of path xs ≡ true) ↔ Any (λ x. starts_with path x ≡ true) xs
unfolding has_prefix_of
prefix_iff path [] = (λ h. absurd (false-ne-true h), λ h. absurd h)
prefix_iff path (x ∷ xs) =
    or_iff (starts_with path x) (has_prefix_of path xs) (λ h. h, λ h. h) (prefix_iff path xs)

guard_iff :
    (b : Bool) (v : Verdict) {P : Type 0}
    → (b ≡ true) ↔ P
    → ((if b then none else some v) ≡ none) ↔ P
guard_iff true v p = (λ h. p.0 refl, λ h. refl)
guard_iff false v p = (λ h. absurd (none-ne-some v (sym h)), λ h. absurd (false-ne-true (p.1 h)))

both_iff :
    (v w : Option Verdict) {P Q : Type 0}
    → (v ≡ none) ↔ P
    → (w ≡ none) ↔ Q
    → (or_else v w ≡ none) ↔ (P × Q)
both_iff v w p q =
    let (there, back) = or_else-eq-none v w in
    (λ h. (p.0 (there h).0, q.0 (there h).1), λ h. back (p.1 h.0, q.1 h.1))

binary_rule-eq-none :
    (role name : String) (allowed : Option (List String))
    → (binary_rule role name allowed ≡ none) ↔ Listed (λ b. b ≡ name) allowed
unfolding binary_rule
binary_rule-eq-none role name none = (λ h. tt, λ h. refl)
binary_rule-eq-none role name (some []) = (λ h. absurd (none-ne-some _ (sym h)), λ h. absurd h)
binary_rule-eq-none role name (some (b ∷ allowed)) =
    guard_iff (holds name (b ∷ allowed)) _ (holds_iff name (b ∷ allowed))

prefix_rule-eq-none :
    (role path : String) (prefixes : Option (List String))
    → (prefix_rule role path prefixes ≡ none) ↔ Listed (λ p. starts_with path p ≡ true) prefixes
unfolding prefix_rule
prefix_rule-eq-none role path none = (λ h. tt, λ h. refl)
prefix_rule-eq-none role path (some []) = (λ h. absurd (none-ne-some _ (sym h)), λ h. absurd h)
prefix_rule-eq-none role path (some (p ∷ prefixes)) =
    guard_iff (has_prefix_of path (p ∷ prefixes)) _ (prefix_iff path (p ∷ prefixes))

-- A command is let through exactly when the role's table, if it has one, lists its binary, and no pattern
-- matches the text that it looks at. For a role without a table any binary may run that no pattern
-- matches.
pub command_verdict-eq-none :
    (role name : String) (arguments : List String)
    → (command_verdict role name arguments ≡ none) ↔ (
        Listed (λ b. b ≡ name) (lookup role role_binary_allowlist)
        × All
            (λ (p : CommandPattern). re_matches p.re (target_text name arguments p.targets) ≡ false)
            command_patterns)
unfolding command_verdict
command_verdict-eq-none role name arguments =
    both_iff _ _ (binary_rule-eq-none role name (lookup role role_binary_allowlist))
      (scan-eq-none _ _ command_patterns)

-- A write is let through exactly when the path has a prefix that the role's table lists, if it has one, the
-- role is exempt from every pattern that matches the path, and the content matches no pattern of a secret.
pub file_verdict-eq-none :
    (role path content : String)
    → (file_verdict role path content ≡ none) ↔ (
        Listed (λ p. starts_with path p ≡ true) (lookup role role_write_path_prefixes)
        × (All (λ p. (re_matches p.re path && not (is_exempt role p)) ≡ false) path_patterns
            × All (λ p. re_matches p.re content ≡ false) secret_patterns))
unfolding file_verdict
file_verdict-eq-none role path content =
    both_iff _ _ (prefix_rule-eq-none role path (lookup role role_write_path_prefixes))
      (both_iff _ _ (scan-eq-none _ _ path_patterns) (scan-eq-none _ _ secret_patterns))

-- An output of a model is let through exactly when no command and no secret is found in it.
pub output_verdict-eq-none :
    (output : String)
    → (output_verdict output ≡ none) ↔ (
        All (λ (p : CommandPattern). re_matches p.re output ≡ false) command_patterns
        × All (λ p. re_matches p.re output ≡ false) secret_patterns)
unfolding output_verdict
output_verdict-eq-none output =
    both_iff _ _ (scan-eq-none _ _ command_patterns) (scan-eq-none _ _ secret_patterns)

-- An input is let through exactly when no injection is found in it.
pub input_verdict-eq-none :
    (input : String)
    → (input_verdict input ≡ none) ↔ All (λ p. re_matches p.re input ≡ false) injection_patterns
unfolding input_verdict
input_verdict-eq-none input = scan-eq-none _ _ injection_patterns
