-- ===== src/Stores/Checkpoints/Representing.antt =====
-- A map of the last checkpoints, and how the store of internal/infra/state represents one.
use agent_claw.Base.{
  ℕ, ◌≡◌, refl, sym, subst, ◌∙◌, ◌⊎◌, inl, inr, String, List, [], ◌∷◌, Option, none, some, ◌==◌,
  if◌then◌else◌, Dict, lookup, insert, delete, lookup-insert, lookup-delete, eq_refl, Bool-cases,
  text-cases, arith,
}
use mathlib.Core.Option.{none-ne-some}
use agent_claw.Domain.Types.{PhaseCheckpoint}
use agent_claw.Port.{ok}
use agent_claw.Stores.Checkpoints.{Store, Env, save, load, remove, stamped, asking, restart}

-- The calls, and that the process starts again.
pub data Call : Type 0 where
  saving : PhaseCheckpoint → Call
  loading : String → Call
  removing : String → Call
  restarting : Call

-- The checkpoints by their tasks.
abbrev pub Held : Type 0
Held = String → Option PhaseCheckpoint

abbrev pub put : String → Option PhaseCheckpoint → Held → Held
put id o held t = if id == t then o else held t

abbrev pub if_done : Option String → Held → Held → Held
if_done none changed held = changed
if_done (some m) changed held = held

-- What a call of a map would do, when it has no error.
abbrev pub holds_after : Env → Call → Store → Held → Held
holds_after e (saving cp) s held =
    if_done (save e cp s).0 (put cp.task_id (some (stamped e s cp)) held) held
holds_after e (loading id) s held = held
holds_after e (removing id) s held =
    if id == "" then held else if_done (remove e id s).0 (put id none held) held
holds_after e restarting s held = held

abbrev pub step : Env → Call → Store → Store
step e (saving cp) s = (save e cp s).1
step e (loading id) s = (load e id s).1
step e (removing id) s = (remove e id s).1
step e restarting s = restart s

abbrev pub run : Env → List Call → Store → Store
run e [] s = s
run e (c ∷ calls) s = run e calls (step e c s)

abbrev pub held_after : Env → List Call → Store → Held → Held
held_after e [] s held = held
held_after e (c ∷ calls) s held = held_after e calls (step e c s) (holds_after e c s held)

-- What is encoded is decoded to the same, for the checkpoints that are saved, at the time when they are.
abbrev pub Decodes : Env → Call → Type 0
Decodes e (saving cp) =
    (n : ℕ) (text : String)
    → e.encode (record cp { saved_at = e.now n }) ≡ ok text
    → e.decode text ≡ ok (record cp { saved_at = e.now n })
Decodes e _ = Unit {0}

abbrev pub AllDecode : Env → List Call → Type 0
AllDecode e [] = Unit {0}
AllDecode e (c ∷ calls) = Decodes e c × AllDecode e calls

-- A cached checkpoint and a file, for a checkpoint that is held or for none.
abbrev pub Fits : Env → Option PhaseCheckpoint → Option PhaseCheckpoint → Option String → Type 0
Fits e none cached file = (cached ≡ none) × (file ≡ none)
Fits e (some cp) cached file =
    ((cached ≡ none) ⊎ (cached ≡ some cp))
    × (text : String) × (file ≡ some text)
    × (e.decode text ≡ ok cp)

-- The store represents a map: each file holds the checkpoint of its task, and the cache no other.
abbrev pub Represents : Env → Store → Held → Type 0
Represents e s held = (t : String) → Fits e (held t) (lookup t s.cache) (lookup t s.files)

-- The cache may forget, and may hold what the file holds.
pub Fits-forget :
    (e : Env) (o cached : Option PhaseCheckpoint) (file : Option String)
    → Fits e o cached file
    → Fits e o none file
Fits-forget e none cached file h = (refl, h.1)
Fits-forget e (some cp) cached file h = (inl refl, h.1, h.2, h.3)

-- A file that decodes is the one that is held.
pub Fits-held :
    (e : Env) (o cached : Option PhaseCheckpoint) (file : Option String) (text : String)
    (cp : PhaseCheckpoint)
    → Fits e o cached file
    → file ≡ some text
    → e.decode text ≡ ok cp
    → o ≡ some cp
Fits-held e none cached file text cp h found decoded = absurd (none-ne-some text (sym h.1 ∙ found))
Fits-held e (some x) cached file text cp h found decoded = ground (arith, h.2, h.3, found, decoded)

-- What is cached is held, and what has no file is not.
pub Fits-cached :
    (e : Env) (o cached : Option PhaseCheckpoint) (file : Option String) (cp : PhaseCheckpoint)
    → Fits e o cached file
    → cached ≡ some cp
    → o ≡ some cp
Fits-cached e none cached file cp h hit = absurd (none-ne-some cp (sym h.0 ∙ hit))
Fits-cached e (some x) cached file cp h hit = elim h.0 [
  | inl miss ↦ absurd (none-ne-some cp (sym miss ∙ hit))
  | inr same ↦ sym same ∙ hit
]

pub Fits-none :
    (e : Env) (o cached : Option PhaseCheckpoint) (file : Option String)
    → Fits e o cached file
    → file ≡ none
    → o ≡ none
Fits-none e none cached file h missing = refl
Fits-none e (some x) cached file h missing = absurd (none-ne-some h.1 (sym missing ∙ h.2))

module _ (e : Env) (s : Store) (held : Held) (rep : Represents e s held) where
  pub asking-Represents : Represents e (asking s) held
  unfolding asking
  asking-Represents = rep

  pub restart-Represents : Represents e (restart s) held
  unfolding lookup
  restart-Represents t = Fits-forget e (held t) (lookup t s.cache) (lookup t s.files) (rep t)

  -- A checkpoint that is written to both.
  pub written-Represents :
      (cp : PhaseCheckpoint) (text : String) (tmp : Dict String) (n : ℕ)
      → e.decode text ≡ ok cp
      → Represents e
          (record {
            cache = insert cp.task_id cp s.cache;
            files = insert cp.task_id text s.files;
            tmp_files = tmp;
            asked = n;
          })
          (put cp.task_id (some cp) held)
  written-Represents cp text tmp n d t =
      rw (lookup-insert cp.task_id t cp s.cache, lookup-insert cp.task_id t text s.files)
        (elim (Bool-cases (cp.task_id == t)) [
          | inl here ↦ rw here (inr refl, text, refl, d)
          | inr other ↦ rw other (rep t)
        ])

  pub removed-Represents :
      (id : String) (n : ℕ)
      → Represents e
          (record s { cache = delete id s.cache; files = delete id s.files; asked = n })
          (put id none held)
  removed-Represents id n t =
      rw (lookup-delete id t s.cache, lookup-delete id t s.files)
        (elim (Bool-cases (id == t)) [
          | inl here ↦ rw here (refl, refl)
          | inr other ↦ rw other (rep t)
        ])

  pub uncached-Represents :
      (id : String) (n : ℕ) → Represents e (record s { cache = delete id s.cache; asked = n }) held
  uncached-Represents id n t = rw (lookup-delete id t s.cache) (elim (Bool-cases (id == t)) [
    | inl here ↦ rw here (Fits-forget e (held t) (lookup t s.cache) (lookup t s.files) (rep t))
    | inr other ↦ rw other (rep t)
  ])

  -- A file that was read goes into the cache.
  pub cached-Represents :
      (id text : String) (cp : PhaseCheckpoint)
      → lookup id s.files ≡ some text
      → e.decode text ≡ ok cp
      → (held id ≡ some cp) × Represents e (record s { cache = insert id cp s.cache }) held
  cached-Represents id text cp found decoded =
      let is_held : held id ≡ some cp = Fits-held e (held id) _ _ text cp (rep id) found decoded in
      let here : Fits e (held id) (lookup id (insert id cp s.cache)) (lookup id s.files) =
        rw (lookup-insert id id cp s.cache, eq_refl id)
          (subst (λ o. Fits e o (some cp) (lookup id s.files)) (sym is_held)
            (inr refl, text, found, decoded)) in
      (
        is_held,
        λ t. elim (text-cases id t) [
          | inl same ↦
              subst (λ u. Fits e (held u) (lookup u (insert id cp s.cache)) (lookup u s.files)) same
                here
          | inr other ↦ rw (lookup-insert id t cp s.cache, other) (rep t)
        ],
      )
