-- ===== src/Job/Ended/Runaway.antt =====
-- The limit on respawns (`job_process_catch_runaway` of init/job_process.c).
use feature_d.Base.{ℕ, suc, ◌+◌, ◌-◌, ◌≤◌, ◌<◌, if◌then◌else◌, List, [], ◌∷◌, arith, All}
use feature_d.Job.{Job}
use feature_d.Job.Ended.{job_process_catch_runaway}

-- The main process ends again and again, at the times given; how often it is started again before
-- it is stopped.
unfoldable pub respawns : List ℕ → Job → ℕ
unfolding job_process_catch_runaway
respawns [] j = 0
respawns (now ∷ times) j =
    let (runaway, j') = job_process_catch_runaway now j in
    let rest = respawns times j' in if runaway then 0 else suc rest

-- All times lie within the interval that began at the job's respawn time.
abbrev pub Within : Job → List ℕ → Type 0
Within j = All λ now. now - j.respawn_time < j.class.respawn_interval

-- A job with a respawn limit is not started again more often than the limit allows within one
-- interval, however often its main process ends there; what it was started before in the
-- interval counts. The count is within the limit before.
pub respawns_le :
    (times : List ℕ) (j : Job)
    → 0 < j.class.respawn_limit
    → Within j times
    → j.respawn_count ≤ j.class.respawn_limit
    → respawns times j + j.respawn_count ≤ j.class.respawn_limit
unfolding respawns
respawns_le [] j l w h = omega (arith, h)
respawns_le (now ∷ times) j l w h =
    ground (arith, respawns_le times (record j { respawn_count = j.respawn_count + 1 }) l w.1)
