-- ===== src/Escalation/Cache.antt =====
-- internal/usecase/escalation/cache.go.
use agent_claw.Base.{String, List, [], ◌∷◌, Option, none, some, leb, if◌then◌else◌, pure, ◌>>=◌}
use agent_claw.Port.{Result, ok, err}
use agent_claw.Escalation.Types.{CachedAnswer, Env, Act, search, save_answer, asking, perform_if}

-- The loop of `Check`.
unfoldable pub first_seen_twice : List CachedAnswer → Option String
first_seen_twice [] = none
first_seen_twice (r ∷ rest) =
    let later = first_seen_twice rest in if leb 2 r.occurrence_count then some r.summary else later

hit : Result (List CachedAnswer) → Option String
unfolding first_seen_twice
hit (ok results) = first_seen_twice results
hit (err e) = none

-- `Check`; `some` is a hit.
unfoldable pub check : Env → String → String → Act (Option String)
unfolding hit
check e question role =
    if e.has_resolved
    then (do results ← asking (search question role) e.search_result; pure (hit results))
    else pure none

-- `Save`.
unfoldable pub save : Env → String → String → String → Act (Unit {0})
save e question answer role = perform_if e.has_resolved (save_answer question answer role)
