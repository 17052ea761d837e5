-- ===== src/Guard/Wrappers/Barriers.antt =====
-- What the wrappers of internal/guard let through to a collaborator, and back.
use agent_claw.Base.{
  ◌≡◌, refl, sym, ◌≢◌, inl, inr, String, List, [], ◌∷◌, Option, none, some, ◌==◌, Bool-cases,
  eq_iff, arith, All,
}
use agent_claw.Port.{LlmMessage, LlmRequest, LlmResponse, Result, ok, err}
use mathlib.Core.Option.{none-ne-some}
use agent_claw.Guard.Types.{Verdict}
use agent_claw.Guard.Engine.Verdicts.{
  Blocks, command_verdict-Blocks, file_verdict-Blocks, input_verdict-Blocks, output_verdict-Blocks,
}
use agent_claw.Guard.Engine.{
  check_command, check_file_write, check_llm_input, check_llm_output, decide, command_verdict,
  file_verdict, input_verdict, output_verdict,
}
use agent_claw.Guard.Wrappers.{
  Effect, run_command, write_file, call_llm, World, Env, blocking, blocked_text, run_if,
  guarded_run, write_if, guarded_write, after_input, scan_text, scan_messages, after_output,
  after_call, ask, guarded_call,
}

-- An error without a call, where a verdict blocks; one call, where none does.
abbrev pub Barred :
    {A : Type 0} → Effect → (Verdict → A) → World → Option Verdict → A × World → Type 0
Barred effect refuse w none o = o.1.trace ≡ effect ∷ w.trace
Barred effect refuse w (some v) o = (o.1.trace ≡ w.trace) × (o.0 ≡ refuse v)

run_if-Barred :
    (e : Env) (role : String) (effect : Effect) (v : Option Verdict) (w : World)
    → Blocks v
    → let (u, engine) = decide role v w.engine in
      Barred effect
        (λ x. err (blocked_text "blocked" x))
        w
        v
        (run_if e effect (blocking u) (record w { engine = engine }))
unfolding run_if decide blocking
run_if-Barred e role effect none w h = refl
run_if-Barred e role effect (some v) w h = rw h (refl, refl)

write_if-Barred :
    (e : Env) (role : String) (effect : Effect) (v : Option Verdict) (w : World)
    → Blocks v
    → let (u, engine) = decide role v w.engine in
      Barred effect
        (λ x. some (blocked_text "blocked" x))
        w
        v
        (write_if e effect (blocking u) (record w { engine = engine }))
unfolding write_if decide blocking
write_if-Barred e role effect none w h = refl
write_if-Barred e role effect (some v) w h = rw h (refl, refl)

-- A command whose verdict blocks never reaches the runner, and the error names the rule; any other is run
-- once.
pub guarded_run-Barred :
    (e : Env) (role work_dir name : String) (arguments : List String) (w : World)
    → Barred
        (run_command work_dir name arguments)
        (λ x. err (blocked_text "blocked" x))
        w
        (command_verdict role name arguments)
        (guarded_run e role work_dir name arguments w)
unfolding guarded_run check_command
guarded_run-Barred e role work_dir name arguments w =
    run_if-Barred e role (run_command work_dir name arguments) (command_verdict role name arguments)
      w (command_verdict-Blocks role name arguments)

-- A write whose verdict blocks never reaches the disk, and the error names the rule; any other is made once.
pub guarded_write-Barred :
    (e : Env) (role path content : String) (w : World)
    → Barred
        (write_file path content)
        (λ x. some (blocked_text "blocked" x))
        w
        (file_verdict role path content)
        (guarded_write e role path content w)
unfolding guarded_write check_file_write
guarded_write-Barred e role path content w =
    write_if-Barred e role (write_file path content) (file_verdict role path content) w
      (file_verdict-Blocks role path content)

-- The texts of a request in which no injection is found.
abbrev pub IsClean : LlmRequest → Type 0
IsClean req =
    (req.system ≢ "" → input_verdict req.system ≡ none)
    × All (λ (m : LlmMessage). m.role ≡ "user" → input_verdict m.content ≡ none) req.messages

-- A response is the model's own to a clean request, and clean itself. The model is not asked when an
-- injection is found in the system prompt or in a message of the user.
pub data IsGuarded (e : Env) (req : LlmRequest) (w : World)
    : Result LlmResponse → World → Type 0 where
  passed :
      (resp : LlmResponse) (w' : World)
      → IsClean req
      → w'.trace ≡ call_llm req ∷ w.trace
      → e.llm_result (call_llm req ∷ w.trace) ≡ ok resp
      → output_verdict resp.content ≡ none
      → IsGuarded e req w (ok resp) w'
  asked_in_vain :
      (m : String) (w' : World)
      → IsClean req
      → w'.trace ≡ call_llm req ∷ w.trace
      → IsGuarded e req w (err m) w'
  not_asked :
      (m : String) (w' : World)
      → (IsClean req → ⊥)
      → w'.trace ≡ w.trace
      → IsGuarded e req w (err m) w'

module _ (e : Env) (req : LlmRequest) (w : World) where
  after_output-IsGuarded :
      (resp : LlmResponse) (v : Option Verdict) (w' : World)
      → Blocks v
      → IsClean req
      → w'.trace ≡ call_llm req ∷ w.trace
      → e.llm_result (call_llm req ∷ w.trace) ≡ ok resp
      → output_verdict resp.content ≡ v
      → let (u, engine) = decide "llm-output" v w'.engine in
        let o = after_output resp (blocking u) (record w' { engine = engine }) in
        IsGuarded e req w o.0 o.1
  unfolding after_output decide blocking
  after_output-IsGuarded resp none w' b c t a p = passed resp _ c t a p
  after_output-IsGuarded resp (some v) w' b c t a p = rw b (asked_in_vain _ _ c t)

  after_call-IsGuarded :
      (answer : Result LlmResponse) (w' : World)
      → IsClean req
      → w'.trace ≡ call_llm req ∷ w.trace
      → e.llm_result (call_llm req ∷ w.trace) ≡ answer
      → IsGuarded e req w (after_call answer w').0 (after_call answer w').1
  unfolding after_call check_llm_output
  after_call-IsGuarded (err m) w' c t a = asked_in_vain m w' c t
  after_call-IsGuarded (ok resp) w' c t a =
      after_output-IsGuarded resp _ w' (output_verdict-Blocks resp.content) c t a refl

  ask-IsGuarded : IsClean req → IsGuarded e req w (ask e req w).0 (ask e req w).1
  unfolding ask
  ask-IsGuarded c = after_call-IsGuarded _ _ c refl refl

  -- A scan goes on from the same world, or stops.
  after_input-IsGuarded :
      (what : String) (v : Option Verdict) (next : World → Result LlmResponse × World)
      → Blocks v
      → (v ≡ none → IsGuarded e req w (next w).0 (next w).1)
      → (v ≢ none → IsClean req → ⊥)
      → let (u, engine) = decide "llm-input" v w.engine in
        let o = after_input what (blocking u) next (record w { engine = engine }) in
        IsGuarded e req w o.0 o.1
  unfolding after_input decide blocking
  after_input-IsGuarded what none next b h k = h refl
  after_input-IsGuarded what (some v) next b h k =
      rw b (not_asked _ _ (k (λ p. none-ne-some v (sym p))) refl)

  scan_text-IsGuarded :
      (what text : String) (next : World → Result LlmResponse × World)
      → (input_verdict text ≡ none → IsGuarded e req w (next w).0 (next w).1)
      → (input_verdict text ≢ none → IsClean req → ⊥)
      → IsGuarded e req w (scan_text what text next w).0 (scan_text what text next w).1
  unfolding scan_text check_llm_input
  scan_text-IsGuarded what text next h k =
      after_input-IsGuarded what (input_verdict text) next (input_verdict-Blocks text) h k

  -- Texts that are all clean lead on to the next step; the first one that is not stops the call.
  scan_messages-IsGuarded :
      (messages : List LlmMessage) (next : World → Result LlmResponse × World)
      → (All (λ (m : LlmMessage). m.role ≡ "user" → input_verdict m.content ≡ none) messages
          → IsGuarded e req w (next w).0 (next w).1)
      → (IsClean req
          → All (λ (m : LlmMessage). m.role ≡ "user" → input_verdict m.content ≡ none) messages)
      → IsGuarded e req w (scan_messages messages next w).0 (scan_messages messages next w).1
  unfolding scan_messages
  scan_messages-IsGuarded [] next h k = h tt
  scan_messages-IsGuarded (m ∷ messages) next h k = elim (Bool-cases (m.role == "user")) [
    | inl user ↦ rw user (
        scan_text-IsGuarded "user message blocked" m.content (scan_messages messages next)
          (λ p. scan_messages-IsGuarded messages next (λ all. h ((λ u. p), all)) (λ c. (k c).1))
          (λ np c. np ((k c).0 ((eq_iff m.role "user").0 user))))
    | inr other ↦ rw other (
        scan_messages-IsGuarded messages next
          (λ all. h ((λ u. absurd (ground (arith, eq_iff m.role "user", u, other))), all))
          (λ c. (k c).1))
  ]

-- The model is asked once, when no text of the request holds an injection, and never else; an answer that is
-- returned is the model's own, and clean.
pub guarded_call-IsGuarded :
    (e : Env) (req : LlmRequest) (w : World)
    → IsGuarded e req w (guarded_call e req w).0 (guarded_call e req w).1
unfolding guarded_call
guarded_call-IsGuarded e req w = elim (Bool-cases (req.system == "")) [
  | inl empty ↦ rw empty (
      scan_messages-IsGuarded e req w req.messages (ask e req)
        (λ all.
          ask-IsGuarded e req w ((λ other. absurd (other ((eq_iff req.system "").0 empty))), all))
        (λ c. c.1))
  | inr some_text ↦ rw some_text (
      scan_text-IsGuarded e req w "system prompt blocked" req.system
        (scan_messages req.messages (ask e req))
        (λ p.
          scan_messages-IsGuarded e req w req.messages (ask e req)
            (λ all. ask-IsGuarded e req w ((λ u. p), all)) (λ c. c.1))
        (λ np c. np (c.0 (λ u. ground (arith, eq_iff req.system "", u, some_text)))))
]
