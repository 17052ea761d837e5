-- ===== src/Tests/Checkpoints.antt =====
-- Runs of internal/infra/state/checkpoint_store.go.
use agent_claw.Base.{◌≡◌, refl, sym, ap, String, List, [], ◌∷◌, none, some, lookup, insert, delete}
use agent_claw.Base.Float.{of_nat}
use agent_claw.Domain.Types.{PhaseCheckpoint, Time}
use agent_claw.Port.{Result, ok, err}
use agent_claw.Guard.Types.{re_matches}
use agent_claw.Guard.Regex.Syntax.{compile}
use agent_claw.Guard.Regex.{match_string}
use agent_claw.Stores.Checkpoints.{Env, empty_store, save, load, remove, is_valid}
use agent_claw.Stores.Checkpoints.Representing.{
  Call, saving, loading, removing, restarting, run, held_after,
}
use agent_claw.Stores.Checkpoints.Holding.{load-held}

abbrev at_plan : String → Time → PhaseCheckpoint
at_plan id at = record {
  task_id = id;
  agent_id = "a1";
  phase = "plan";
  step_index = 1;
  step_name = "redirect";
  accumulated = none;
  pending_query = "";
  pending_query_id = "";
  suspended_model = "";
  escalated_to = "";
  last_system_prompt = "";
  last_messages = [];
  last_response = "";
  input_tokens = 0;
  output_tokens = 0;
  cost_usd = of_nat 0;
  saved_at = at;
}

-- The disk keeps the id, and the time stands still.
abbrev disk : Env
disk = record {
  encode = λ cp. ok cp.task_id;
  decode = λ text. ok (at_plan text 5);
  dir = "/state/checkpoints";
  disk_error = λ n. none;
  left_over = λ n. "";
  now = λ n. 5;
}

abbrev calls : List Call
calls =
    saving (at_plan "t1" 0)
    ∷ restarting
    ∷ loading "t1"
    ∷ saving (at_plan "t2" 0)
    ∷ removing "t2"
    ∷ []

reads_back : (id text : String) → ok id ≡ ok text → ok (at_plan text 5) ≡ ok (at_plan id 5)
reads_back id text h = ap decoded (sym h)
  where
    decoded : Result String → Result PhaseCheckpoint
    decoded (ok t) = ok (at_plan t 5)
    decoded (err m) = err m

stays : (load disk "t1" (run disk calls empty_store)).0 ≡ ok (some (at_plan "t1" 5))
unfolding save load remove is_valid lookup insert delete re_matches compile match_string
    agent_claw.Guard.Regex.has
stays = refl

load-held_example : some (at_plan "t1" 5) ≡ held_after disk calls empty_store (λ t. none) "t1"
load-held_example =
    load-held disk calls "t1" (some (at_plan "t1" 5))
      (
        (λ n text h. reads_back "t1" text h),
        (tt, (tt, ((λ n text h. reads_back "t2" text h), (tt, tt)))),
      )
      stays
