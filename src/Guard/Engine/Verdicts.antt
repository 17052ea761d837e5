-- ===== src/Guard/Engine/Verdicts.antt =====
-- Every verdict of internal/guard/guard.go blocks.
use agent_claw.Base.{
  ◌≡◌, refl, String, Bool, true, false, List, [], ◌∷◌, Option, none, some, if◌then◌else◌,
}
use agent_claw.Guard.Types.{Verdict}
use agent_claw.Guard.Engine.{
  or_else, verdict_by, holds, binary_rule, command_verdict, prefix_rule, has_prefix_of,
  file_verdict, output_verdict, input_verdict,
}

abbrev pub Blocks : Option Verdict → Type 0
Blocks none = Unit
Blocks (some v) = v.blocked ≡ true

verdict_by-Blocks {ℓ} :
    {A : Type ℓ} (f : A → Verdict) (o : Option A)
    → ((a : A) → (f a).blocked ≡ true)
    → Blocks (verdict_by f o)
unfolding verdict_by
verdict_by-Blocks f none h = tt
verdict_by-Blocks f (some a) h = h a

or_else-Blocks : (v w : Option Verdict) → Blocks v → Blocks w → Blocks (or_else v w)
unfolding or_else
or_else-Blocks none w h k = k
or_else-Blocks (some v) w h k = h

if-Blocks : (b : Bool) (v : Verdict) → v.blocked ≡ true → Blocks (if b then none else some v)
if-Blocks true v h = tt
if-Blocks false v h = h

binary_rule-Blocks :
    (role name : String) (allowed : Option (List String)) → Blocks (binary_rule role name allowed)
unfolding binary_rule
binary_rule-Blocks role name none = tt
binary_rule-Blocks role name (some []) = refl
binary_rule-Blocks role name (some (b ∷ allowed)) = if-Blocks (holds name (b ∷ allowed)) _ refl

prefix_rule-Blocks :
    (role path : String) (prefixes : Option (List String)) → Blocks (prefix_rule role path prefixes)
unfolding prefix_rule
prefix_rule-Blocks role path none = tt
prefix_rule-Blocks role path (some []) = refl
prefix_rule-Blocks role path (some (p ∷ prefixes)) =
    if-Blocks (has_prefix_of path (p ∷ prefixes)) _ refl

pub command_verdict-Blocks :
    (role name : String) (arguments : List String) → Blocks (command_verdict role name arguments)
unfolding command_verdict
command_verdict-Blocks role name arguments =
    or_else-Blocks _ _ (binary_rule-Blocks role name _) (verdict_by-Blocks _ _ (λ p. refl))

pub file_verdict-Blocks : (role path content : String) → Blocks (file_verdict role path content)
unfolding file_verdict
file_verdict-Blocks role path content =
    or_else-Blocks _ _ (prefix_rule-Blocks role path _)
      (or_else-Blocks _ _ (verdict_by-Blocks _ _ (λ p. refl)) (verdict_by-Blocks _ _ (λ p. refl)))

pub input_verdict-Blocks : (input : String) → Blocks (input_verdict input)
unfolding input_verdict
input_verdict-Blocks input = verdict_by-Blocks _ _ (λ p. refl)

pub output_verdict-Blocks : (output : String) → Blocks (output_verdict output)
unfolding output_verdict
output_verdict-Blocks output =
    or_else-Blocks _ _ (verdict_by-Blocks _ _ (λ p. refl)) (verdict_by-Blocks _ _ (λ p. refl))
