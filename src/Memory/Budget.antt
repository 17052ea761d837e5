-- ===== src/Memory/Budget.antt =====
-- How near `enforceTokenBudget` of internal/memory/store.go comes to its budget.
use agent_claw.Base.{
  ℕ, zero, suc, ◌+◌, ◌-◌, ◌*◌, ◌≤◌, ◌<◌, ◌≡◌, refl, inl, inr, String, List, [], ◌∷◌, if◌then◌else◌,
  ltb, leb, len, slice, len-slice, leb→le, Bool-cases, arith,
}
use text.Mathlib.TextPositions.{len-append}
use agent_claw.Memory.{
  MemoryContext, estimate_tokens, truncate_to_tokens, total_of, total, trim_list, min_tokens, least,
  trim_section, trimmed, enforce_token_budget,
}

mark_length : len "... [truncated]" ≡ 15
mark_length = refl

-- A text that is cut to so many tokens has at most four more, by the mark at its end.
truncate_bounded : (s : String) (n : ℕ) → estimate_tokens (truncate_to_tokens s n) ≤ n + 4
unfolding estimate_tokens truncate_to_tokens
truncate_bounded s n = elim (Bool-cases (leb (len s) (n * 4))) [
  | inl fits ↦ rw fits (omega (arith, leb→le (len s) (n * 4) fits))
  | inr long ↦ rw long (
      omega
        (arith, len-append (slice s 0 (n * 4)) "... [truncated]", len-slice s (n * 4), mark_length))
]

-- What is cut from a list and what is left of the excess make up for the excess; a list is empty where some
-- excess is left.
trim_list-lem :
    (texts : List String) (x : ℕ)
    → let o = trim_list texts x in
      (x + total_of o.0 ≤ o.1 + total_of texts) × (0 < o.1 → total_of o.0 ≡ 0) × (o.1 ≤ x)
unfolding trim_list total_of
trim_list-lem [] x = (omega arith, λ h. refl, omega arith)
trim_list-lem (s ∷ texts) x =
    let rest = trim_list-lem texts x in
    elim (Bool-cases (ltb 0 (trim_list texts x).1)) [
      | inl more ↦ rw more (
        ground (arith, more, rest.0, rest.1),
        λ h. rest.1 (ground (arith, more)),
        omega (arith, rest.2),
      )
      | inr stop ↦ rw stop (omega (arith, rest.0), λ h. absurd (ground (arith, stop, h)), rest.2)
    ]

-- A section loses what the excess loses, but for the mark; where some excess is left it has at most 204.
trim_section-lem :
    (s : String) (x : ℕ)
    → let o = trim_section s x in
      (x + estimate_tokens o.0 ≤ o.1 + estimate_tokens s + 4)
      × (0 < o.1 → estimate_tokens o.0 ≤ 204)
      × (o.1 ≤ x)
unfolding trim_section min_tokens least
trim_section-lem s x = elim (Bool-cases (leb x 0)) [
  | inl none_left ↦
      rw none_left (omega arith, λ h. absurd (ground (arith, none_left, h)), omega arith)
  | inr some_left ↦ rw some_left (elim (Bool-cases (leb (estimate_tokens s) 200)) [
    | inl small ↦
        rw small
          (omega arith, λ h. omega (arith, leb→le (estimate_tokens s) 200 small), omega arith)
    | inr large ↦ rw large (
      ground (
        arith,
        truncate_bounded s (
            estimate_tokens s
            - (if ltb x (estimate_tokens s - 200) then x else estimate_tokens s - 200)),
      ),
      λ h. ground (
        arith,
        h,
        truncate_bounded s (
            estimate_tokens s
            - (if ltb x (estimate_tokens s - 200) then x else estimate_tokens s - 200)),
      ),
      omega arith,
    )
  ])
]

-- The sums that the four steps leave, when each passes its excess on.
phases_bounded :
    (x x1 x2 x3 x4 d d' c c' p p' a a' budget : ℕ)
    → (x + d' ≤ x1 + d) × (0 < x1 → d' ≡ 0) × (x1 ≤ x)
    → (x1 + c' ≤ x2 + c) × (0 < x2 → c' ≡ 0) × (x2 ≤ x1)
    → (x2 + p' ≤ x3 + p + 4) × (0 < x3 → p' ≤ 204) × (x3 ≤ x2)
    → (x3 + a' ≤ x4 + a + 4) × (0 < x4 → a' ≤ 204) × (x4 ≤ x3)
    → x + budget ≡ p + a + c + d
    → 400 ≤ budget
    → p' + a' + c' + d' ≤ budget + 8
phases_bounded x x1 x2 x3 zero d d' c c' p p' a a' budget hd hc hp ha sum wide =
    omega (arith, hd.0, hc.0, hp.0, ha.0, sum)
phases_bounded x x1 x2 x3 (suc x4) d d' c c' p p' a a' budget hd hc hp ha sum wide =
    let at3 : 0 < x3 = omega (arith, ha.2) in
    let at2 : 0 < x2 = omega (arith, at3, hp.2) in
    let at1 : 0 < x1 = omega (arith, at2, hc.2) in
    omega (arith, hd.1 at1, hc.1 at2, hp.1 at3, ha.1 (omega arith), wide)

trimmed_bounded :
    (x budget : ℕ) (ctx : MemoryContext)
    → 400 ≤ budget
    → x + budget ≡ total ctx
    → total (trimmed x ctx) ≤ budget + 8
unfolding trimmed total
trimmed_bounded x budget ctx wide excess =
    let x1 = (trim_list ctx.adrs x).1 in
    let x2 = (trim_list ctx.relevant_code x1).1 in
    let x3 = (trim_section ctx.project_doc x2).1 in
    phases_bounded x x1 x2 x3 _ _ _ _ _ _ _ _ _ budget (trim_list-lem ctx.adrs x)
      (trim_list-lem ctx.relevant_code x1) (trim_section-lem ctx.project_doc x2)
      (trim_section-lem ctx.agent_doc x3) excess wide

-- A context within its budget stays as it is. Any other has at most eight tokens more than its budget after
-- it, those of two marks, if the budget has room for the 200 tokens that each of the documents keeps.
pub enforce_token_budget_bounded :
    (ctx : MemoryContext) (budget : ℕ)
    → 400 ≤ budget
    → (total ctx ≤ budget → enforce_token_budget ctx budget ≡ ctx)
      × (total (enforce_token_budget ctx budget) ≤ budget + 8)
unfolding enforce_token_budget
enforce_token_budget_bounded ctx budget wide = elim (Bool-cases (leb (total ctx) budget)) [
  | inl within ↦ rw within (λ h. refl, omega (arith, leb→le (total ctx) budget within))
  | inr over ↦ rw over (
    λ h. absurd (ground (arith, over, h)),
    trimmed_bounded (total ctx - budget) budget ctx wide (ground (arith, over)),
  )
]
