-- ===== src/Stores/Checkpoints.antt =====
-- internal/infra/state/checkpoint_store.go: checkpoints as files behind a cache. A file is named after its
-- task, `<id>.json`, and written as `<id>.json.tmp` first, so both are kept by the id; an id holds no separator.

pub mod Representing
pub mod Holding
use agent_claw.Base.{
  ℕ, zero, suc, ◌+◌, String, Bool, not, ◌&&◌, List, [], ◌∷◌, Option, none, some, ◌⧺◌, ◌==◌,
  if◌then◌else◌, Dict, lookup, insert, delete, quote,
}
use agent_claw.Domain.Types.{PhaseCheckpoint, Time}
use agent_claw.Port.{Result, ok, err}
use agent_claw.Guard.Types.{re_matches}

-- `CheckpointStore` with the files that it reads and writes, and how often the disk was asked.
pub record Store : Type 0 where
  pub cache : Dict PhaseCheckpoint
  pub files : Dict String
  pub tmp_files : Dict String
  pub asked : ℕ

-- `NewCheckpointStore` on an empty directory.
abbrev pub empty_store : Store
empty_store = record { cache = []; files = []; tmp_files = []; asked = 0 }

-- `json` at checkpoints, the directory, and what the disk answers when it is asked for the n-th time, with
-- the time by then. A write that fails may leave any text.
pub record Env : Type 0 where
  pub encode : PhaseCheckpoint → Result String
  pub decode : String → Result PhaseCheckpoint
  pub dir : String
  pub disk_error : ℕ → Option String
  pub left_over : ℕ → String
  pub now : ℕ → Time

-- `validateAgentID` of store.go.
unfoldable pub is_valid : String → Bool
is_valid id = not (id == "") && re_matches "^[a-zA-Z0-9._-]+$" id

path_text : Env → String → String
path_text e id = e.dir ⧺ "/" ⧺ id ⧺ ".json"

unfoldable pub asking : Store → Store
asking s = record s { asked = suc s.asked }

-- The cache after the rename.
after_rename : Env → PhaseCheckpoint → String → Option String → Store → Option String × Store
unfolding path_text asking
after_rename e cp text (some m) s =
    (some ("checkpoint: rename " ⧺ path_text e cp.task_id ⧺ ": " ⧺ m), asking s)
after_rename e cp text none s = (
  none,
  asking (record s {
    files = insert cp.task_id text s.files;
    tmp_files = delete cp.task_id s.tmp_files;
    cache = insert cp.task_id cp s.cache;
  }),
)

after_write : Env → PhaseCheckpoint → String → Option String → Store → Option String × Store
unfolding path_text asking after_rename
after_write e cp text (some m) s = (
  some ("checkpoint: write " ⧺ path_text e cp.task_id ⧺ ".tmp: " ⧺ m),
  asking (record s { tmp_files = insert cp.task_id (e.left_over s.asked) s.tmp_files }),
)
after_write e cp text none s =
    let s' = asking (record s { tmp_files = insert cp.task_id text s.tmp_files }) in
    after_rename e cp text (e.disk_error s'.asked) s'

after_encode : Env → PhaseCheckpoint → Result String → Store → Option String × Store
unfolding after_write
after_encode e cp (err m) s = (some ("checkpoint: marshal " ⧺ cp.task_id ⧺ ": " ⧺ m), s)
after_encode e cp (ok text) s = after_write e cp text (e.disk_error s.asked) s

-- The checkpoint with the time at which it is saved.
abbrev pub stamped : Env → Store → PhaseCheckpoint → PhaseCheckpoint
stamped e s cp = record cp { saved_at = e.now s.asked }

-- `Save`.
unfoldable pub save : Env → PhaseCheckpoint → Store → Option String × Store
unfolding after_encode
save e cp s =
    if cp.task_id == ""
    then (some "checkpoint: empty task ID", s)
    else if is_valid cp.task_id
    then after_encode e (stamped e s cp) (e.encode (stamped e s cp)) s
    else (some ("checkpoint: state: invalid agent ID: " ⧺ quote cp.task_id), s)

after_decode :
    Env → String → Result PhaseCheckpoint → Store → Result (Option PhaseCheckpoint) × Store
unfolding path_text
after_decode e id (err m) s = (err ("checkpoint: unmarshal " ⧺ path_text e id ⧺ ": " ⧺ m), s)
after_decode e id (ok cp) s = (ok (some cp), record s { cache = insert id cp s.cache })

after_find : Env → String → Option String → Store → Result (Option PhaseCheckpoint) × Store
unfolding after_decode
after_find e id none s = (ok none, s)
after_find e id (some text) s = after_decode e id (e.decode text) s

after_read : Env → String → Option String → Store → Result (Option PhaseCheckpoint) × Store
unfolding after_find path_text
after_read e id (some m) s = (err ("checkpoint: read " ⧺ path_text e id ⧺ ": " ⧺ m), s)
after_read e id none s = after_find e id (lookup id s.files) s

after_cache :
    Env → String → Option PhaseCheckpoint → Store → Result (Option PhaseCheckpoint) × Store
unfolding after_read asking
after_cache e id (some cp) s = (ok (some cp), s)
after_cache e id none s = after_read e id (e.disk_error s.asked) (asking s)

-- `Load`.
unfoldable pub load : Env → String → Store → Result (Option PhaseCheckpoint) × Store
unfolding after_cache
load e id s =
    if id == ""
    then (err "checkpoint: empty task ID", s)
    else after_cache e id (lookup id s.cache) s

after_remove : Env → String → Option String → Store → Option String × Store
unfolding path_text
after_remove e id (some m) s = (some ("checkpoint: remove " ⧺ path_text e id ⧺ ": " ⧺ m), s)
after_remove e id none s = (none, record s { files = delete id s.files })

-- `Delete`; a missing file is no error.
unfoldable pub remove : Env → String → Store → Option String × Store
unfolding after_remove asking
remove e id s =
    if id == ""
    then (none, s)
    else after_remove e id (e.disk_error s.asked) (asking (record s { cache = delete id s.cache }))

-- The process starts again on the same directory.
abbrev pub restart : Store → Store
restart s = record s { cache = [] }
