-- ===== src/Git/Artifacts/Writing.antt =====
-- `WriteArtifacts` of internal/usecase/git/automation.go: which files it writes.
use agent_claw.Base.{
  ◌≡◌, refl, ap, String, List, [], ◌∷◌, ◌++◌, Option, none, some, ◌⧺◌, if◌then◌else◌, Bool-cases,
  inl, inr,
}
use agent_claw.Domain.Types.{Artifact}
use agent_claw.Git.Artifacts.{Written, is_skipped, stop_or, write_artifacts}

-- The files of the artifacts that have a path and a content, in their order.
abbrev pub files_of : List Artifact → Written
files_of [] = []
files_of (a ∷ artifacts) =
    if is_skipped a then files_of artifacts else (a.path, a.content) ∷ files_of artifacts

-- The files written after `t`, the newest first, and that the writer accepts each of them.
abbrev pub onto : Written → Written → Written
onto [] t = t
onto (f ∷ files) t = onto files (f ∷ t)

abbrev pub AllAccepted : (Written → Option String) → Written → Written → Type 0
AllAccepted writer [] t = Unit {0}
AllAccepted writer (f ∷ files) t = (writer (f ∷ t) ≡ none) × AllAccepted writer files (f ∷ t)

-- All files are written, or those up to the first that the writer refuses.
pub data IsWritten (writer : Written → Option String) (files t : Written)
    : Option String → Written → Type 0 where
  finished : AllAccepted writer files t → IsWritten writer files t none (onto files t)
  refused :
      (done rest : Written) (f : String × String) (m : String)
      → files ≡ done ++ f ∷ rest
      → AllAccepted writer done t
      → writer (f ∷ onto done t) ≡ some m
      → IsWritten writer files t (some ("write artifact " ⧺ f.0 ⧺ ": " ⧺ m)) (f ∷ onto done t)

-- A file that is accepted comes before.
before-IsWritten :
    (writer : Written → Option String) (files t : Written) (f : String × String) (e : Option String)
    (u : Written)
    → writer (f ∷ t) ≡ none
    → IsWritten writer files (f ∷ t) e u
    → IsWritten writer (f ∷ files) t e u
before-IsWritten writer files t f e u h (finished all) = finished (h, all)
before-IsWritten writer files t f e u h (refused done rest g m same all ref) =
    refused (f ∷ done) rest g m (ap (λ x. f ∷ x) same) (h, all) ref

-- What follows an answer of the writer.
stop_or-IsWritten :
    (writer : Written → Option String) (a : Artifact) (files t : Written)
    (o : Option String × Written) (answer : Option String)
    → writer ((a.path, a.content) ∷ t) ≡ answer
    → IsWritten writer files ((a.path, a.content) ∷ t) o.0 o.1
    → let s = stop_or a o ((a.path, a.content) ∷ t) answer in
      IsWritten writer ((a.path, a.content) ∷ files) t s.0 s.1
unfolding stop_or
stop_or-IsWritten writer a files t o none h rest = before-IsWritten writer files t _ _ _ h rest
stop_or-IsWritten writer a files t o (some m) h rest =
    refused [] files (a.path, a.content) m refl tt h

-- The files of the artifacts with a path and a content are written in their order, and none after one that
-- fails: there is no error exactly when the writer accepted them all.
pub write_artifacts-IsWritten :
    (writer : Written → Option String) (artifacts : List Artifact) (t : Written)
    → let o = write_artifacts writer artifacts t in IsWritten writer (files_of artifacts) t o.0 o.1
unfolding write_artifacts
write_artifacts-IsWritten writer [] t = finished tt
write_artifacts-IsWritten writer (a ∷ artifacts) t = elim (Bool-cases (is_skipped a)) [
  | inl skip ↦ rw skip (write_artifacts-IsWritten writer artifacts t)
  | inr keep ↦ rw keep (
      stop_or-IsWritten writer a (files_of artifacts) t _ _ refl
        (write_artifacts-IsWritten writer artifacts ((a.path, a.content) ∷ t)))
]
