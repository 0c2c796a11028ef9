-- ===== src/Examples/Logout.antt =====
-- The end of a session (init/quiesce.c) with a job that never stops, called every second.
use feature_d.Base.{
  ℕ, zero, suc, ◌≤◌, none, Bytes, Option, codes, List, [], ◌∷◌, true, false, refl, arith, length,
}
use feature_d.Environ.{environ_set}
use feature_d.Job.{job_start, job_running}
use feature_d.Quiesce.{
  Quiesce, not_quiesced, requester_session, Seen, Tick, ticks, begun, kill_phase, quiesce, reason,
  job_class_max_kill_timeout,
}
use feature_d.Quiesce.Ends.{Rising, Ends, quiesce-Ends}
use feature_d.Examples.Jobs.{ctx}
use feature_d.Examples.Handlers.{main_pid}

abbrev stubborn : Seen
stubborn =
    let js = (ctx job_start job_running main_pid).job ∷ [] in
    record { jobs = js; stopped = js; start_ons = none ∷ [] }

abbrev idle : Quiesce
idle = record {
  phase = not_quiesced;
  requester = none;
  start_time = 0;
  phase_time = 0;
  max_kill_timeout = 0;
  session_end_jobs = false;
  disable_respawn = false;
  timer = false;
  finalising = false;
  stops = 0;
  event = none;
}

abbrev no_values : Bytes → Option Bytes
no_values n = none

abbrev logout : Quiesce
logout = kill_phase 100 stubborn (
    begun requester_session 100
      (environ_set no_values [] true (codes "TYPE") (reason requester_session)) idle)

every_second : ℕ → ℕ → List Tick
every_second t zero = []
every_second t (suc n) = record { now = t; seen = stubborn } ∷ every_second (suc t) n

stubborn_le : job_class_max_kill_timeout stubborn.jobs ≤ 5
unfolding job_class_max_kill_timeout
stubborn_le = ground arith

every_second-Rising : (t n : ℕ) → Rising 5 t (every_second (suc t) n)
unfolding every_second Rising
every_second-Rising t zero = tt
every_second-Rising t (suc n) = (ground arith, stubborn_le, every_second-Rising (suc t) n)

length-every_second : 12 ≤ length (every_second 101 13)
unfolding every_second
length-every_second = ground arith

quiesce-Ends_example : Ends (ticks (every_second 101 13) logout)
unfolding every_second quiesce
quiesce-Ends_example =
    quiesce-Ends no_values (λ p s. true) requester_session 100 5 stubborn idle logout
      (every_second 101 13) refl (ground arith) stubborn_le refl (every_second-Rising 100 13)
      (ground arith)
