-- ===== src/Guard/Engine/Refusals.antt =====
-- Writes that internal/guard/guard.go refuses to every role.
use agent_claw.Base.{
  ◌≡◌, refl, ◌≢◌, ◌⊎◌, inl, inr, ℕ, String, true, false, not, ◌&&◌, List, [], ◌∷◌, All, Option,
  none, some, ◌⧺◌, lookup, arith,
}
use agent_claw.Guard.Regex.{Regex, matches, codes, has, at_start}
use agent_claw.Guard.Regex.Search.{match_string-append}
use agent_claw.Guard.Regex.{match_string}
use agent_claw.Guard.Regex.Syntax.{compile}
use agent_claw.Guard.Types.{Pattern, re_matches}
use agent_claw.Guard.Patterns.Paths.{path_patterns}
use agent_claw.Guard.Engine.{is_exempt, holds, overrides_of, file_verdict}
use agent_claw.Guard.Engine.Admission.{file_verdict-eq-none}

-- An expression that compiles and matches at the beginning of a suffix, whatever stands before it.
abbrev EndsBad : String → String → Type 0
EndsBad re suffix =
    (r : Regex) × (compile re ≡ some r)
    × (matches r (λ p. true) (none, codes suffix) ≡ true)
    × ((c : ℕ) → matches r (λ p. true) (some c, codes suffix) ≡ true)

-- At the start of a text, or after some character.
either_place :
    (r : Regex) (cs : List ℕ)
    → matches r (λ p. true) (none, cs) ≡ true
    → ((c : ℕ) → matches r (λ p. true) (some c, cs) ≡ true)
    → (b : Option ℕ) → matches r (λ p. true) (b, cs) ≡ true
either_place r cs h k none = h
either_place r cs h k (some c) = k c

-- The expressions of private files.
abbrev env_re : String
env_re = "(?i)(^|/)\\.env(\\.[a-z]+)?$"

abbrev key_re : String
key_re = "(?i)\\.(pem|key|p12|jks|pfx|keystore)$"

abbrev ssh_re : String
ssh_re = "(?i)(^|/)authorized_keys$"

-- Names of environment files, and endings of keys.
abbrev pub env_names : List String
env_names = ".env" ∷ ".env.local" ∷ ".env.production" ∷ []

abbrev pub key_endings : List String
key_endings = ".pem" ∷ ".key" ∷ ".p12" ∷ ".jks" ∷ ".pfx" ∷ ".keystore" ∷ []

-- A name that matches alone and in a directory.
abbrev NameBad : String → String → Type 0
NameBad re name = (re_matches re name ≡ true) × EndsBad re ("/" ⧺ name)

env_bad : All (NameBad env_re) env_names
unfolding re_matches compile codes matches has at_start match_string
env_bad = (
  (refl, (_, refl, refl, λ c. refl)),
  ((refl, (_, refl, refl, λ c. refl)), ((refl, (_, refl, refl, λ c. refl)), tt)),
)

key_bad : All (EndsBad key_re) key_endings
unfolding compile codes matches has
key_bad = (
  (_, refl, refl, λ c. refl),
  (
    (_, refl, refl, λ c. refl),
    (
      (_, refl, refl, λ c. refl),
      ((_, refl, refl, λ c. refl), ((_, refl, refl, λ c. refl), ((_, refl, refl, λ c. refl), tt))),
    ),
  ),
)

ssh_bad : NameBad ssh_re "authorized_keys"
unfolding re_matches compile codes matches has at_start match_string
ssh_bad = (refl, (_, refl, refl, λ c. refl))

re_matches-append :
    (re suffix dir : String) → EndsBad re suffix → re_matches re (dir ⧺ suffix) ≡ true
unfolding re_matches
re_matches-append re suffix dir (r, compiles, start, later) =
    rw (compiles, re_matches)
      (match_string-append r dir suffix (either_place r (codes suffix) start later))

-- No role is exempt from the patterns of private files.
is_exempt-false :
    (role : String) (p : Pattern)
    → (p.id ≡ "PATH-001") ⊎ (p.id ≡ "PATH-002") ⊎ (p.id ≡ "PATH-012")
    → is_exempt role p ≡ false
unfolding is_exempt lookup holds overrides_of
is_exempt-false role p (inl h) = rw h (ground arith)
is_exempt-false role p (inr (inl h)) = rw h (ground arith)
is_exempt-false role p (inr (inr h)) = rw h (ground arith)

-- A write is refused where the path matches a pattern of the table from which the role is not exempt.
module _ (role content : String) where
  abbrev pub Refused : String → Type 0
  Refused path = file_verdict role path content ≢ none

  refused :
      (p : Pattern) (path : String)
      → is_exempt role p ≡ false
      → ((file_verdict role path content ≡ none)
          → (re_matches p.re path && not (is_exempt role p)) ≡ false)
      → re_matches p.re path ≡ true
      → Refused path
  refused p path exempt passes found h = let pass = passes h in ground (arith, found, exempt, pass)

  env-Refused : (path : String) → re_matches env_re path ≡ true → Refused path
  unfolding path_patterns
  env-Refused path =
      refused _ path (is_exempt-false role _ (inl refl))
        (λ h. ((file_verdict-eq-none role path content).0 h).1.0.0)

  key-Refused : (path : String) → re_matches key_re path ≡ true → Refused path
  unfolding path_patterns
  key-Refused path =
      refused _ path (is_exempt-false role _ (inr (inl refl)))
        (λ h. ((file_verdict-eq-none role path content).0 h).1.0.1.0)

  ssh-Refused : (path : String) → re_matches ssh_re path ≡ true → Refused path
  unfolding path_patterns
  ssh-Refused path =
      refused _ path (is_exempt-false role _ (inr (inr refl)))
        (λ h. ((file_verdict-eq-none role path content).0 h).1.0.1.1.1.1.1.1.0)

  -- A name is refused alone and in any directory.
  name-Refused :
      (re dir name : String)
      → ((path : String) → re_matches re path ≡ true → Refused path)
      → NameBad re name
      → Refused name × Refused (dir ⧺ "/" ⧺ name)
  name-Refused re dir name k bad = (k name bad.0, k _ (re_matches-append re ("/" ⧺ name) dir bad.1))

  names-Refused :
      (dir : String) (names : List String)
      → All (NameBad env_re) names
      → All (λ name. Refused name × Refused (dir ⧺ "/" ⧺ name)) names
  names-Refused dir [] bad = tt
  names-Refused dir (name ∷ names) bad =
      (name-Refused env_re dir name env-Refused bad.0, names-Refused dir names bad.1)

  endings-Refused :
      (stem : String) (endings : List String)
      → All (EndsBad key_re) endings
      → All (λ ending. Refused (stem ⧺ ending)) endings
  endings-Refused stem [] bad = tt
  endings-Refused stem (ending ∷ endings) bad = (
    key-Refused _ (re_matches-append key_re ending stem bad.0),
    endings-Refused stem endings bad.1,
  )

-- No role may write a file named `.env`, `.env.local` or `.env.production`, or `authorized_keys`, be it a relative
-- path of that name alone or one in any directory, nor a file with any name that ends in .pem, .key, .p12, .jks,
-- .pfx or .keystore, whatever the content.
pub file_verdict-ne-none :
    (role content dir stem : String)
    → All (λ name. Refused role content name × Refused role content (dir ⧺ "/" ⧺ name)) env_names
      × All (λ ending. Refused role content (stem ⧺ ending)) key_endings
      × Refused role content "authorized_keys"
      × Refused role content (dir ⧺ "/" ⧺ "authorized_keys")
file_verdict-ne-none role content dir stem =
    let ssh =
      name-Refused role content ssh_re dir "authorized_keys" (ssh-Refused role content) ssh_bad in
    (
      names-Refused role content dir env_names env_bad,
      endings-Refused role content stem key_endings key_bad,
      ssh.0,
      ssh.1,
    )
