-- ===== src/Git/Artifacts.antt =====
-- internal/usecase/git/automation.go: the files that a model's output holds, and writing them.
pub mod Blocks
pub mod Writing
use agent_claw.Base.{
  ℕ, String, Bool, true, false, not, ◌&&◌, ◌||◌, List, [], ◌∷◌, ◌++◌, Option, none, some, ◌⧺◌, ◌==◌,
  if◌then◌else◌, ltb, len, starts_with, contains, has_suffix, trim_prefix, trim_space, split,
}
use agent_claw.Domain.Types.{Artifact}

-- `artifactType`.
unfoldable pub artifact_type : String → String
artifact_type path =
    if has_suffix path "_test.go" || contains path "test"
    then "test"
    else if has_suffix path ".md"
    then "doc"
    else "code"

-- The variables of the loop.
pub record Scan : Type 0 where
  pub artifacts : List Artifact
  pub current_path : String
  pub current_content : String
  pub in_block : Bool

abbrev pub scan_start : Scan
scan_start = record { artifacts = []; current_path = ""; current_content = ""; in_block = false }

-- The artifact of the current path and content.
unfoldable pub current : Scan → Artifact
unfolding artifact_type
current s = record {
  type = artifact_type s.current_path;
  path = s.current_path;
  content = trim_space s.current_content;
}

unfoldable pub is_marker : String → Bool
is_marker trimmed = starts_with trimmed "// filepath:" || starts_with trimmed "# filepath:"

unfoldable pub path_of : String → String
path_of trimmed = trim_space (trim_prefix (trim_prefix trimmed "// filepath:") "# filepath:")

-- The artifacts with the current one, if it has a path and a content.
unfoldable pub flushed : Scan → List Artifact
unfolding current
flushed s =
    if not (s.current_path == "") && ltb 0 (len s.current_content)
    then s.artifacts ++ current s ∷ []
    else s.artifacts

on_marker : String → Scan → Scan
unfolding flushed path_of
on_marker trimmed s = record {
  artifacts = flushed s;
  current_path = path_of trimmed;
  current_content = "";
  in_block = true;
}

-- The end of a block with a content: it leaves a block without a path as it is.
end_block : Scan → Scan
unfolding current
end_block s =
    if not (s.current_path == "")
    then record {
      artifacts = s.artifacts ++ current s ∷ [];
      current_path = "";
      current_content = "";
      in_block = false;
    }
    else record s { in_block = false }

on_fence : Scan → Scan
unfolding end_block
on_fence s =
    if s.in_block && ltb 0 (len s.current_content)
    then end_block s
    else record s { in_block = true }

on_text : String → Scan → Scan
on_text line s =
    if s.in_block && not (s.current_path == "")
    then record s { current_content = s.current_content ⧺ line ⧺ "\n" }
    else s

unfoldable pub scan_line : String → Scan → Scan
unfolding is_marker on_marker on_fence on_text
scan_line line s =
    if is_marker (trim_space line)
    then on_marker (trim_space line) s
    else if starts_with (trim_space line) "```"
    then on_fence s
    else on_text line s

unfoldable pub scan_lines : List String → Scan → Scan
unfolding scan_line
scan_lines [] s = s
scan_lines (line ∷ lines) s = scan_lines lines (scan_line line s)

-- `ParseArtifacts`.
unfoldable pub parse_artifacts : String → List Artifact
unfolding flushed scan_lines
parse_artifacts llm_output = flushed (scan_lines (split llm_output "\n") scan_start)

-- What was written, newest first, and what the writer answers to the newest.
abbrev pub Written : Type 0
Written = List (String × String)

unfoldable pub is_skipped : Artifact → Bool
is_skipped a = a.path == "" || a.content == ""

stop_or : Artifact → Option String × Written → Written → Option String → Option String × Written
stop_or a rest t none = rest
stop_or a rest t (some m) = (some ("write artifact " ⧺ a.path ⧺ ": " ⧺ m), t)

-- `WriteArtifacts`.
unfoldable pub write_artifacts :
    (Written → Option String) → List Artifact → Written → Option String × Written
unfolding is_skipped stop_or
write_artifacts writer [] t = (none, t)
write_artifacts writer (a ∷ artifacts) t =
    let skipped = write_artifacts writer artifacts t in
    let t' = (a.path, a.content) ∷ t in
    let rest = write_artifacts writer artifacts t' in
    if is_skipped a then skipped else stop_or a rest t' (writer t')
