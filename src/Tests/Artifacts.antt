-- ===== src/Tests/Artifacts.antt =====
-- Runs of `ParseArtifacts` and `WriteArtifacts` of internal/usecase/git/automation.go.
use agent_claw.Base.{
  ◌≡◌, refl, String, [], ◌∷◌, Option, none, some, ◌==◌, if◌then◌else◌, map, trim_space, split,
  arith, eq_iff, trim_prefix,
}
use agent_claw.Domain.Types.{Artifact}
use agent_claw.Git.Artifacts.{Written, parse_artifacts, write_artifacts, is_marker, path_of}
use agent_claw.Git.Artifacts.Blocks.{Block, artifact_of, parse_artifacts-document}
use agent_claw.Git.Artifacts.Writing.{IsWritten, files_of, write_artifacts-IsWritten}

abbrev output : String
output = "Here it is:\n```go\n// filepath: cmd/main.go\npackage main\nfunc main() {}\n```\nDone."

abbrev main_block : Block
main_block = record {
  opening = "```go";
  marker = "// filepath: cmd/main.go";
  path = "cmd/main.go";
  first = "package main";
  others = "func main() {}" ∷ [];
  closing = "```";
  after = "Done." ∷ [];
}

parse_artifacts-document_example : parse_artifacts output ≡ map artifact_of (main_block ∷ [])
unfolding trim_space split is_marker path_of trim_prefix
parse_artifacts-document_example =
    parse_artifacts-document output ("Here it is:" ∷ []) (main_block ∷ []) refl ((refl, refl), tt)
      (
        (
          (refl, refl),
          (refl, refl),
          (λ h. ground (arith, (eq_iff "cmd/main.go" "").1 h)),
          ((refl, refl), ((refl, refl), tt)),
          (refl, refl),
          ((refl, refl), tt),
        ),
        tt,
      )

-- The disk refuses one path.
abbrev disk : Written → Option String
disk [] = none
disk (f ∷ t) = if f.0 == "/etc/passwd" then some "absolute path" else none

abbrev code : String → Artifact
code path = record { type = "code"; path = path; content = "x" }

write_artifacts-IsWritten_example :
    let artifacts = code "a.go" ∷ code "" ∷ code "/etc/passwd" ∷ code "b.go" ∷ [] in
    let o = write_artifacts disk artifacts [] in IsWritten disk (files_of artifacts) [] o.0 o.1
write_artifacts-IsWritten_example =
    write_artifacts-IsWritten disk (code "a.go" ∷ code "" ∷ code "/etc/passwd" ∷ code "b.go" ∷ [])
      []
