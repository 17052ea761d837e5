-- ===== src/Queue/Done.antt =====
-- `recordDone` of internal/queue/queue.go.
pub mod Bounds
use agent_claw.Base.{
  ℕ, String, Bool, true, false, List, [], ◌∷◌, ◌++◌, Option, none, some, Dict, lookup, insert,
  delete, length, take, ltb, if◌then◌else◌, zero, suc,
}
use agent_claw.Queue.Types.{Queue, holds}

abbrev pub max_done_ids : ℕ
max_done_ids = 10_000

-- `maxDoneIDs/2`.
abbrev pub half_done_ids : ℕ
half_done_ids = 5_000

pub drop : ℕ → List String → List String
drop zero xs = xs
drop (suc n) [] = []
drop (suc n) (x ∷ xs) = drop n xs

pub delete_all : List String → Dict Bool → Dict Bool
delete_all [] m = m
delete_all (id ∷ ids) m = delete_all ids (delete id m)

-- The eviction of the oldest half.
evict : Queue → Queue
unfolding drop delete_all
evict q = record q {
  done_ids = delete_all (take half_done_ids q.done_seq) q.done_ids;
  done_seq = drop half_done_ids q.done_seq;
}

-- `recordDone`.
unfoldable pub record_done : String → Queue → Queue
unfolding evict
record_done id q =
    let added = record q {
      done_ids = insert id true q.done_ids;
      done_seq = q.done_seq ++ id ∷ [];
    } in
    if holds (lookup id q.done_ids)
    then q
    else if ltb max_done_ids (length added.done_seq)
    then evict added
    else added
