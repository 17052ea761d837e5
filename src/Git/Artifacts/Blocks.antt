-- ===== src/Git/Artifacts/Blocks.antt =====
-- `ParseArtifacts` of internal/usecase/git/automation.go on outputs in the documented form.
use agent_claw.Base.{
  ◌≡◌, ◌≢◌, ◌≤◌, refl, sym, ap, ◌∙◌, String, true, false, List, [], ◌∷◌, ◌++◌, ◌⧺◌, ◌==◌, ltb, len,
  starts_with, trim_space, split, map, All, arith, eq_iff, append_assoc, append-nil,
}
use text.Mathlib.TextPositions.{len-append}
use agent_claw.Domain.Types.{Artifact}
use agent_claw.Git.Artifacts.{
  artifact_type, Scan, scan_start, current, is_marker, path_of, flushed, on_marker, end_block,
  on_fence, on_text, scan_line, scan_lines, parse_artifacts,
}

-- A line of text, a fence of a code block, and a marker with its path.
abbrev pub IsText : String → Type 0
IsText line = (is_marker (trim_space line) ≡ false) × (starts_with (trim_space line) "```" ≡ false)

abbrev pub IsFence : String → Type 0
IsFence line = (is_marker (trim_space line) ≡ false) × (starts_with (trim_space line) "```" ≡ true)

abbrev pub IsMarker : String → String → Type 0
IsMarker path line = (is_marker (trim_space line) ≡ true) × (path_of (trim_space line) ≡ path)

-- A code block with a path, a first line and more of them, and the text that follows it.
pub record Block : Type 0 where
  pub opening : String
  pub marker : String
  pub path : String
  pub first : String
  pub others : List String
  pub closing : String
  pub after : List String

abbrev pub IsBlock : Block → Type 0
IsBlock b =
    IsFence b.opening
    × IsMarker b.path b.marker
    × (b.path ≢ "")
    × All IsText (b.first ∷ b.others)
    × IsFence b.closing
    × All IsText b.after

abbrev pub lines_of : Block → List String
lines_of b = b.opening ∷ b.marker ∷ b.first ∷ (b.others ++ b.closing ∷ b.after)

-- The content as it is collected.
abbrev pub collected : String → List String → String
collected content [] = content
collected content (line ∷ lines) = collected (content ⧺ line ⧺ "\n") lines

abbrev pub artifact_of : Block → Artifact
artifact_of b = record {
  type = artifact_type b.path;
  path = b.path;
  content = trim_space (collected "" (b.first ∷ b.others));
}

abbrev pub document : List Block → List String
document [] = []
document (b ∷ blocks) = lines_of b ++ document blocks

scan_lines-append :
    (xs ys : List String) (s : Scan) → scan_lines (xs ++ ys) s ≡ scan_lines ys (scan_lines xs s)
unfolding scan_lines
scan_lines-append [] ys s = refl
scan_lines-append (x ∷ xs) ys s = scan_lines-append xs ys (scan_line x s)

-- The state between two blocks, and in a block with a path.
abbrev between : List Artifact → Scan
between done = record scan_start { artifacts = done }

abbrev within : List Artifact → String → String → Scan
within done path content = record {
  artifacts = done;
  current_path = path;
  current_content = content;
  in_block = true;
}

-- Text outside a block changes nothing.
scan-after :
    (lines : List String) (done : List Artifact)
    → All IsText lines
    → scan_lines lines (between done) ≡ between done
unfolding scan_lines scan_line on_text
scan-after [] done texts = refl
scan-after (line ∷ lines) done texts = rw (texts.0.0, texts.0.1) (scan-after lines done texts.1)

-- Text inside a block with a path is collected.
scan-inside :
    (lines : List String) (done : List Artifact) (path content : String)
    → All IsText lines
    → (path == "") ≡ false
    → scan_lines lines (within done path content) ≡ within done path (collected content lines)
unfolding scan_lines scan_line on_text
scan-inside [] done path content texts named = refl
scan-inside (line ∷ lines) done path content texts named =
    rw (texts.0.0, texts.0.1, named) (scan-inside lines done path _ texts.1 named)

collected-grows :
    (content : String) (lines : List String) → len content ≤ len (collected content lines)
collected-grows content [] = omega arith
collected-grows content (line ∷ lines) =
    omega (arith, len-append content (line ⧺ "\n"), collected-grows (content ⧺ line ⧺ "\n") lines)

collected-full :
    (first : String) (others : List String) → ltb 0 (len (collected "" (first ∷ others))) ≡ true
collected-full first others = ground (
  arith,
  collected-grows ("" ⧺ first ⧺ "\n") others,
  len-append "" (first ⧺ "\n"),
  len-append first "\n",
)

-- A fence and a marker open a block.
opened :
    (opening marker path : String) (done : List Artifact)
    → IsFence opening
    → IsMarker path marker
    → scan_line marker (scan_line opening (between done)) ≡ within done path ""
unfolding scan_line on_fence on_marker flushed
opened opening marker path done fence mark = rw (fence.0, fence.1, mark.0, mark.1) refl

-- A fence closes a block with a path and a content.
closed :
    (line path content : String) (done : List Artifact)
    → IsFence line
    → (path == "") ≡ false
    → ltb 0 (len content) ≡ true
    → scan_line line (within done path content)
      ≡ between (done ++ current (within done path content) ∷ [])
unfolding scan_line on_fence end_block
closed line path content done fence named full = rw (fence.0, fence.1, full, named) refl

unnamed : (path : String) → path ≢ "" → (path == "") ≡ false
unnamed path h = ground (arith, eq_iff path "", h)

scan-block :
    (b : Block) (rest : List String) (done : List Artifact)
    → IsBlock b
    → scan_lines (lines_of b ++ rest) (between done)
      ≡ scan_lines rest (between (done ++ artifact_of b ∷ []))
unfolding scan_lines current
scan-block b rest done h =
    let named : (b.path == "") ≡ false = unnamed b.path h.2 in
    let tail : List String = b.closing ∷ (b.after ++ rest) in
    let content : String = collected "" (b.first ∷ b.others) in
    ap
      (λ ls.
        scan_lines ls (scan_line b.first (scan_line b.marker (scan_line b.opening (between done)))))
      (append_assoc b.others (b.closing ∷ b.after) rest)
    ∙ scan_lines-append b.others tail _
    ∙ ap (λ s. scan_lines tail (scan_lines (b.first ∷ b.others) s))
        (opened b.opening b.marker b.path done h.0 h.1)
    ∙ ap (scan_lines tail) (scan-inside (b.first ∷ b.others) done b.path "" h.3 named)
    ∙ ap (scan_lines (b.after ++ rest))
        (closed b.closing b.path content done h.4 named (collected-full b.first b.others))
    ∙ scan_lines-append b.after rest _
    ∙ ap (scan_lines rest) (scan-after b.after _ h.5)

scan-document :
    (blocks : List Block) (done : List Artifact)
    → All IsBlock blocks
    → scan_lines (document blocks) (between done) ≡ between (done ++ map artifact_of blocks)
unfolding scan_lines
scan-document [] done h = ap between (sym (append-nil done))
scan-document (b ∷ blocks) done h =
    scan-block b (document blocks) done h.0
    ∙ scan-document blocks (done ++ artifact_of b ∷ []) h.1
    ∙ ap between (append_assoc done (artifact_of b ∷ []) (map artifact_of blocks))

-- An output of text and code blocks, each with a path and a content, is parsed to the paths in their order,
-- each with the trimmed content of its block.
pub parse_artifacts-document :
    (llm_output : String) (before : List String) (blocks : List Block)
    → split llm_output "\n" ≡ before ++ document blocks
    → All IsText before
    → All IsBlock blocks
    → parse_artifacts llm_output ≡ map artifact_of blocks
unfolding parse_artifacts flushed
parse_artifacts-document llm_output before blocks lines texts h = ap flushed (
    ap (λ ls. scan_lines ls scan_start) lines
    ∙ scan_lines-append before (document blocks) scan_start
    ∙ ap (scan_lines (document blocks)) (scan-after before [] texts)
    ∙ scan-document blocks [] h)
