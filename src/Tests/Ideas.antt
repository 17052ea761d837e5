-- ===== src/Tests/Ideas.antt =====
-- Runs of internal/usecase/phase/idea_clarify.go and mid_clarify.go.
use agent_claw.Base.{String, true, [], ◌∷◌, ◌==◌}
use agent_claw.Domain.Project.{MidClarifyResult}
use agent_claw.Port.{Result, ok}
use agent_claw.Phase.Idea
use agent_claw.Phase.Idea.{Json}
use agent_claw.Phase.Midway.{handle_mid_clarify}
use agent_claw.Phase.Midway.Endings.{IsHandled, handle_mid_clarify-IsHandled}
use agent_claw.Tests.Phases.{office, job}
use agent_claw.Tests.Preflights.{shop}

-- An answer is complete when it says so; any other asks for the database.
abbrev json : Json
json = record {
  parse_result = λ raw. ok (record {
    ready = raw == "ready";
    questions = "Which database?" ∷ [];
    concept = "A shop for books";
    config = shop;
  });
  config_text = λ c. "{}";
}

abbrev parse_mid : String → Result MidClarifyResult
parse_mid raw = ok (record {
  needs_clarification = true;
  questions = "Which port?" ∷ [];
  partial_output = "half";
  context = "The server";
})

abbrev stuck : String
stuck = "{\"needs_clarification\":true}"

handle_mid_clarify-IsHandled_example :
    let handled =
      handle_mid_clarify (office "done") parse_mid stuck "implement" 2 [] (job "implement" []) in
    IsHandled
      (office "done")
      parse_mid
      stuck
      "implement"
      2
      []
      (job "implement" [])
      handled.0
      handled.1
handle_mid_clarify-IsHandled_example =
    handle_mid_clarify-IsHandled (office "done") parse_mid stuck "implement" 2 []
      (job "implement" [])
