-- ===== src/Stores/Checkpoints/Holding.antt =====
-- The checkpoint store returns what was saved last.
use agent_claw.Base.{
  ℕ, suc, ◌≡◌, refl, String, Bool, true, false, List, [], ◌∷◌, Option, none, some, ◌==◌,
  if◌then◌else◌, Dict, lookup, delete, arith,
}
use agent_claw.Domain.Types.{PhaseCheckpoint}
use agent_claw.Port.{Result, ok, err}
use agent_claw.Stores.Checkpoints.{
  Store, Env, empty_store, save, after_encode, after_write, load, after_cache, after_read,
  after_find, after_decode, remove, after_remove, after_rename, stamped, asking, is_valid,
}
use agent_claw.Stores.Checkpoints.Representing.{
  Call, saving, loading, removing, restarting, Held, put, if_done, holds_after, step, run,
  held_after, Decodes, AllDecode, Represents, Fits-cached, Fits-none, restart-Represents,
  written-Represents, removed-Represents, uncached-Represents, cached-Represents,
}

-- What a load returns, and what it leaves.
record Loads (e : Env) (held : Held) (id : String) (a : Result (Option PhaseCheckpoint) × Store)
    : Type 0 where
  pub what_is_held : (r : Option PhaseCheckpoint) → a.0 ≡ ok r → r ≡ held id
  pub leaves : Represents e a.1 held

Loads-choice :
    (e : Env) (held : Held) (id : String) (b : Bool)
    (a a' : Result (Option PhaseCheckpoint) × Store)
    → Loads e held id a
    → Loads e held id a'
    → Loads e held id (if b then a else a')
Loads-choice e held id true a a' h k = h
Loads-choice e held id false a a' h k = k

module _ (e : Env) (s : Store) (held : Held) (rep : Represents e s held) where
  -- What a save leaves: the checkpoint when it has no error, and what was before else.
  abbrev Saves : PhaseCheckpoint → Option String × Store → Type 0
  Saves cp a = Represents e a.1 (if_done a.0 (put cp.task_id (some cp) held) held)

  Saves-choice :
      (cp : PhaseCheckpoint) (b : Bool) (a a' : Option String × Store)
      → Saves cp a
      → Saves cp a'
      → Saves cp (if b then a else a')
  Saves-choice cp true a a' h k = h
  Saves-choice cp false a a' h k = k

  after_rename-Saves :
      (cp : PhaseCheckpoint) (text : String) (o : Option String) (tmp : Dict String) (n : ℕ)
      → e.decode text ≡ ok cp
      → Saves cp (after_rename e cp text o (record s { tmp_files = tmp; asked = n }))
  unfolding after_rename asking
  after_rename-Saves cp text (some m) tmp n d = rep
  after_rename-Saves cp text none tmp n d =
      written-Represents e s held rep cp text (delete cp.task_id tmp) (suc n) d

  after_write-Saves :
      (cp : PhaseCheckpoint) (text : String) (o : Option String)
      → e.decode text ≡ ok cp
      → Saves cp (after_write e cp text o s)
  unfolding after_write asking
  after_write-Saves cp text (some m) d = rep
  after_write-Saves cp text none d = after_rename-Saves cp text _ _ _ d

  after_encode-Saves :
      (cp : PhaseCheckpoint) (o : Result String)
      → ((text : String) → o ≡ ok text → e.decode text ≡ ok cp)
      → Saves cp (after_encode e cp o s)
  unfolding after_encode
  after_encode-Saves cp (err m) d = rep
  after_encode-Saves cp (ok text) d = after_write-Saves cp text _ (d text refl)

  save-Saves : (cp : PhaseCheckpoint) → Decodes e (saving cp) → Saves (stamped e s cp) (save e cp s)
  unfolding save
  save-Saves cp d = Saves-choice (stamped e s cp) (cp.task_id == "") _ _ rep (
      Saves-choice (stamped e s cp) (is_valid cp.task_id) _ _
        (after_encode-Saves (stamped e s cp) _ (d s.asked)) rep)

  after_decode-Loads :
      (id text : String) (o : Result PhaseCheckpoint)
      → lookup id s.files ≡ some text
      → e.decode text ≡ o
      → Loads e held id (after_decode e id o s)
  unfolding after_decode
  after_decode-Loads id text (err m) found d = record {
    what_is_held = λ r h. ground (arith, h);
    leaves = rep;
  }
  after_decode-Loads id text (ok cp) found d =
      let put_there = cached-Represents e s held rep id text cp found d in
      record { what_is_held = λ r h. ground (arith, h, put_there.0); leaves = put_there.1 }

  after_find-Loads :
      (id : String) (o : Option String)
      → lookup id s.files ≡ o
      → Loads e held id (after_find e id o s)
  unfolding after_find
  after_find-Loads id none missing =
      let nothing = Fits-none e (held id) _ _ (rep id) missing in
      record { what_is_held = λ r h. ground (arith, h, nothing); leaves = rep }
  after_find-Loads id (some text) found = after_decode-Loads id text _ found refl

  after_read-Loads : (id : String) (o : Option String) → Loads e held id (after_read e id o s)
  unfolding after_read
  after_read-Loads id (some m) = record { what_is_held = λ r h. ground (arith, h); leaves = rep }
  after_read-Loads id none = after_find-Loads id _ refl

  after_remove-Represents :
      (id : String) (o : Option String)
      → let a = after_remove e id o (asking (record s { cache = delete id s.cache })) in
        Represents e a.1 (if_done a.0 (put id none held) held)
  unfolding after_remove asking
  after_remove-Represents id (some m) = uncached-Represents e s held rep id (suc s.asked)
  after_remove-Represents id none = removed-Represents e s held rep id (suc s.asked)

module _ (e : Env) (s : Store) (held : Held) (rep : Represents e s held) where
  after_cache-Loads :
      (id : String) (o : Option PhaseCheckpoint)
      → lookup id s.cache ≡ o
      → Loads e held id (after_cache e id o s)
  unfolding after_cache asking
  after_cache-Loads id none miss = after_read-Loads e (asking s) held rep id (e.disk_error s.asked)
  after_cache-Loads id (some cp) hit =
      let is_held = Fits-cached e (held id) _ _ cp (rep id) hit in
      record { what_is_held = λ r h. ground (arith, h, is_held); leaves = rep }

  load-Loads : (id : String) → Loads e held id (load e id s)
  unfolding load
  load-Loads id =
      Loads-choice e held id (id == "") _ _
        (record { what_is_held = λ r h. ground (arith, h); leaves = rep })
        (after_cache-Loads id _ refl)

  -- A removal that an empty id stops.
  removal-choice :
      (id : String) (b : Bool) (a : Option String × Store)
      → Represents e a.1 (if_done a.0 (put id none held) held)
      → let x = if b then (none, s) else a in
        Represents e x.1 (if b then held else if_done x.0 (put id none held) held)
  removal-choice id true a h = rep
  removal-choice id false a h = h

  remove-Represents :
      (id : String) → Represents e (remove e id s).1 (holds_after e (removing id) s held)
  unfolding remove
  remove-Represents id =
      removal-choice id (id == "") _
        (after_remove-Represents e s held rep id (e.disk_error s.asked))

  step-Represents : (c : Call) → Decodes e c → Represents e (step e c s) (holds_after e c s held)
  step-Represents (saving cp) d = save-Saves e s held rep cp d
  step-Represents (loading id) d = (load-Loads id).leaves
  step-Represents (removing id) d = remove-Represents id
  step-Represents restarting d = restart-Represents e s held rep

run-Represents :
    (e : Env) (calls : List Call) (s : Store) (held : Held)
    → AllDecode e calls
    → Represents e s held
    → Represents e (run e calls s) (held_after e calls s held)
run-Represents e [] s held d rep = rep
run-Represents e (c ∷ calls) s held d rep =
    run-Represents e calls (step e c s) _ d.1 (step-Represents e s held rep c d.0)

-- After any calls on an empty directory, with restarts among them, a load that has no error returns the
-- checkpoint that was last saved for its task without an error and not deleted since, or none where there
-- is none, provided that what is encoded is decoded to the same.
pub load-held :
    (e : Env) (calls : List Call) (id : String) (r : Option PhaseCheckpoint)
    → AllDecode e calls
    → (load e id (run e calls empty_store)).0 ≡ ok r
    → r ≡ held_after e calls empty_store (λ t. none) id
unfolding lookup
load-held e calls id r d h =
    let rep = run-Represents e calls empty_store (λ t. none) d (λ t. (refl, refl)) in
    (load-Loads e (run e calls empty_store) _ rep id).what_is_held r h
