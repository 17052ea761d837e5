-- ===== src/Guard/Types.antt =====
-- The patterns and verdicts of internal/guard, and of internal/port/guard.go.
use agent_claw.Base.{String, Bool, false, none, some}
use agent_claw.Guard.Regex.{match_string}
use agent_claw.Guard.Regex.Syntax.{compile}

-- `InjectionPattern`, `PathPattern` and `SecretPattern`, which have the same fields; the expression by its text.
pub record Pattern : Type 0 where
  pub id : String
  pub reason : String
  pub re : String

-- What a command pattern is matched against.
pub data Target : Type 0 where
  binary args full : Target

-- `CommandPattern`.
pub record CommandPattern : Type 0 where
  pub id : String
  pub reason : String
  pub re : String
  pub targets : Target

abbrev pub pattern_of : String → String → String → Pattern
pattern_of id reason re = record { id = id; reason = reason; re = re }

abbrev pub on : Target → String → String → String → CommandPattern
on target id reason re = record { id = id; reason = reason; re = re; targets = target }

-- `regexp.MustCompile(re).MatchString(s)`; an expression that does not compile would stop the process when
-- it starts, and none of the tables has one.
unfoldable pub re_matches : String → String → Bool
re_matches re s = elim (compile re) [ none ↦ false | some r ↦ match_string r s ]

-- `Verdict`.
pub record Verdict : Type 0 where
  pub blocked : Bool
  pub rule : String
  pub category : String
  pub reason : String
