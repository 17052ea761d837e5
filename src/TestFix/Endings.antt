-- ===== src/TestFix/Endings.antt =====
-- How `Run` of internal/usecase/orchestrator/test_fix.go ends, and what it has spent then.
use agent_claw.Base.{
  ℕ, zero, suc, ◌+◌, ◌-◌, ◌≤◌, ◌≡◌, refl, String, Bool, true, false, [], ◌∷◌, Option, none, some,
  arith, eqb, leb, if◌then◌else◌,
}
use agent_claw.Domain.Types.{TaskResult, Event}
use agent_claw.Port.{LlmResponse, Result, ok, err}
use agent_claw.Phase.Types.{World}
use agent_claw.Phase.Types as phase
use agent_claw.Phase.Runner
use agent_claw.TestFix.{
  CommandResult, dispatch, run_command, call_llm, Trace, Env, Act, Outcome, announce, fixed,
  after_fix, ask_for_fix, passed, exhausted, after_test, attempts, after_implement, run,
}

-- The commands run and the models asked.
abbrev pub commands : Trace → ℕ
commands [] = 0
commands (run_command dir cmd args ∷ t) = suc (commands t)
commands (_ ∷ t) = commands t

abbrev pub asks : Trace → ℕ
asks [] = 0
asks (call_llm x ∷ t) = suc (asks t)
asks (_ ∷ t) = asks t

-- Success comes right after a run of the tests with exit code 0; otherwise there is an error.
pub data IsVerdict (e : Env) : Outcome → Trace → Type 0 where
  tests_passed :
      (r : TaskResult) (tested : CommandResult) (event : Event) (before : Trace)
      → e.test_result (run_command e.work_dir e.test_cmd e.test_args ∷ before) ≡ ok tested
      → tested.exit_code ≡ 0
      → IsVerdict e
          (record { result = some r; error = none })
          (dispatch event ∷ run_command e.work_dir e.test_cmd e.test_args ∷ before)
  not_passed :
      (r : Option TaskResult) (m : String) (t : Trace)
      → IsVerdict e (record { result = r; error = some m }) t

-- A verdict, with at most so many commands and questions to a model more than before.
pub record Ends (e : Env) (more_commands more_asks : ℕ) (t : Trace) (o : Outcome) (t' : Trace)
    : Type 0 where
  pub few_commands : commands t' ≤ commands t + more_commands
  pub few_asks : asks t' ≤ asks t + more_asks
  pub verdict : IsVerdict e o t'

module _ (e : Env) (limit : ℕ) where
  Ends-choice :
      (p q : ℕ) (s t : Trace) (b : Bool) (m m' : Act Outcome)
      → (b ≡ true → Ends e p q s (m t).0 (m t).1)
      → (b ≡ false → Ends e p q s (m' t).0 (m' t).1)
      → Ends e p q s ((if b then m else m') t).0 ((if b then m else m') t).1
  Ends-choice p q s t true m m' h k = h refl
  Ends-choice p q s t false m m' h k = k refl

  -- From a later trace, with what was spent until then.
  Ends-weaken :
      (p q P Q : ℕ) (u s : Trace) (o : Outcome) (t : Trace)
      → commands u + p ≤ commands s + P
      → asks u + q ≤ asks s + Q
      → Ends e p q u o t
      → Ends e P Q s o t
  Ends-weaken p q P Q u s o t hc ha h = record {
    few_commands = omega (arith, hc, h.few_commands);
    few_asks = omega (arith, ha, h.few_asks);
    verdict = h.verdict;
  }

  Ends-exhausted :
      (p q : ℕ) (r : TaskResult) (s t : Trace)
      → commands t ≤ commands s + p
      → asks t ≤ asks s + q
      → Ends e p q s (exhausted e limit r t).0 (exhausted e limit r t).1
  unfolding exhausted announce
  Ends-exhausted p q r s t c a = record {
    few_commands = c;
    few_asks = a;
    verdict = not_passed _ _ _;
  }

  Ends-after_fix :
      (attempt p q : ℕ) (r : TaskResult) (next : TaskResult → Act Outcome)
      (answer : Result LlmResponse) (s t : Trace)
      → commands t ≤ commands s + p
      → asks t ≤ asks s + q
      → ((r' : TaskResult) → Ends e p q s (next r' t).0 (next r' t).1)
      → Ends e p q s (after_fix attempt r next answer t).0 (after_fix attempt r next answer t).1
  unfolding after_fix
  Ends-after_fix attempt p q r next (err m) s t c a k = record {
    few_commands = c;
    few_asks = a;
    verdict = not_passed _ _ _;
  }
  Ends-after_fix attempt p q r next (ok resp) s t c a k = k (fixed r resp)

  -- The test is the newest effect.
  Ends-after_test :
      (attempt left : ℕ) (r : TaskResult) (tested : Result CommandResult) (s before : Trace)
      → e.test_result (run_command e.work_dir e.test_cmd e.test_args ∷ before) ≡ tested
      → commands before ≤ commands s
      → asks before ≤ asks s
      → left + attempt ≡ limit
      → ((r' : TaskResult) (u : Trace)
          → Ends e left
              (left - 1)
              u
              (attempts e limit left (suc attempt) r' u).0
              (attempts e limit left (suc attempt) r' u).1)
      → let t = run_command e.work_dir e.test_cmd e.test_args ∷ before in
        Ends e
          (suc left)
          left
          s
          (after_test e limit attempt r (attempts e limit left (suc attempt)) tested t).0
          (after_test e limit attempt r (attempts e limit left (suc attempt)) tested t).1
  unfolding after_test passed ask_for_fix announce
  Ends-after_test attempt left r (err m) s before at c a l k = record {
    few_commands = omega (arith, c);
    few_asks = omega (arith, a);
    verdict = not_passed _ _ _;
  }
  Ends-after_test attempt left r (ok tested) s before at c a l k =
      let t = run_command e.work_dir e.test_cmd e.test_args ∷ before in
      let next = attempts e limit left (suc attempt) in
      Ends-choice (suc left) left s t (eqb tested.exit_code 0) (passed e attempt r) _
        (λ good. record {
          few_commands = omega (arith, c);
          few_asks = omega (arith, a);
          verdict = tests_passed r tested _ before at (ground (arith, good));
        })
        (λ bad.
          Ends-choice (suc left) left s t (leb limit attempt) (exhausted e limit r)
            (ask_for_fix e limit attempt r next tested)
            (λ last. Ends-exhausted (suc left) left r s t (omega (arith, c)) (omega (arith, a)))
            (λ more.
              Ends-after_fix attempt (suc left) left r next _ s _ (omega (arith, c))
                (ground (arith, a, l, more))
                (λ r'.
                  Ends-weaken left (left - 1) (suc left) left _ s _ _ (omega (arith, c))
                    (ground (arith, a, l, more)) (k r' _))))

  Ends-attempts :
      (left attempt : ℕ) (r : TaskResult) (t : Trace)
      → left + attempt ≡ limit + 1
      → Ends e left
          (left - 1)
          t
          (attempts e limit left attempt r t).0
          (attempts e limit left attempt r t).1
  unfolding attempts announce
  Ends-attempts zero attempt r t l = Ends-exhausted 0 0 r t t (omega arith) (omega arith)
  Ends-attempts (suc left) attempt r t l =
      Ends-weaken (suc left) left (suc left) (suc left - 1) t t _ _ (omega arith) (omega arith) (
        Ends-after_test attempt left r _ t _ refl (omega arith) (omega arith) (omega (arith, l))
          (λ r' u. Ends-attempts left (suc attempt) r' u (omega (arith, l))))

-- Within a limit on the attempts the tests are run at most that often, and a model is asked for a fix
-- once less at most; there is no error only if the last thing done, but for the notification, was a
-- run of the tests with exit code 0.
pub run-Ends :
    (e : Env) (phases : phase.Env) (limit : ℕ) (w : World)
    → Ends e limit (limit - 1) [] (run e phases limit w []).0 (run e phases limit w []).1
unfolding run
run-Ends e phases limit w = Ends-after_implement (Runner.run phases w).0
  where
    Ends-after_implement :
        (o : Runner.Outcome)
        → Ends e limit
            (limit - 1)
            []
            (after_implement e limit o []).0
            (after_implement e limit o []).1
    Ends-after_implement (err m) = record {
      few_commands = omega arith;
      few_asks = omega arith;
      verdict = not_passed _ _ _;
    }
    Ends-after_implement (ok none) = record {
      few_commands = omega arith;
      few_asks = omega arith;
      verdict = not_passed _ _ _;
    }
    Ends-after_implement (ok (some r)) = Ends-attempts e limit limit 1 r [] (omega arith)
