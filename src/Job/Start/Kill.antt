-- ===== src/Job/Start/Kill.antt =====
-- The signals that end a job (`job_process_kill` and `job_process_kill_timer` of
-- init/job_process.c).
use mathlib.Core.Path.{subst}
use feature_d.Base.{◌<◌, true, is_some, none, some, ◌∷◌, ◌≡◌, refl, arith}
use feature_d.Process.{main}
use feature_d.Job.Machine.{Ctx, signal_sent, Ensures}
use feature_d.Job.Invariant.{Awaited, Sound}
use feature_d.Job.Start.{job_process_kill_timer}

process_due : (c : Ctx) → Sound c → is_some c.job.kill_timer ≡ true → c.job.kill_process ≡ some main
process_due c h t = ground (arith, h.inv.timer_process, t)

abbrev fired : Ctx → Ctx
fired c = record c {
  job = record c.job { kill_timer = none; kill_process = none };
  world = record c.world { out = signal_sent c.job.pid.main_slot 9 ∷ c.world.out };
}

fires :
    (c : Ctx)
    → c.job.kill_process ≡ some main
    → is_some c.job.kill_timer ≡ true
    → 0 < c.job.pid.main_slot
    → job_process_kill_timer c ≡ some (tt, fired c)
unfolding job_process_kill_timer
fires c k t l = ground (arith, k, t, l)

-- When the kill timer of a sound job runs out, no assertion fails, and the job is sound with no
-- timer set.
pub job_process_kill_timer-Sound :
    (c : Ctx)
    → Sound c
    → is_some c.job.kill_timer ≡ true
    → Ensures (λ _ d. Sound d × (d.job.kill_timer ≡ none)) (job_process_kill_timer c)
job_process_kill_timer-Sound c h t =
    let q = h.inv.timer t in
    rw (fires c (process_due c h t) t (subst (λ s. Awaited s c.job.pid) q h.inv.pids.awaited)) (
      record {
        inv = record {
          settled = h.inv.settled;
          pids = h.inv.pids;
          main_known = h.inv.main_known;
          post_start_known = h.inv.post_start_known;
          pre_stop_known = h.inv.pre_stop_known;
          blocked = h.inv.blocked;
          timer = λ e. ground arith;
          timer_process = refl;
          respawning = h.inv.respawning;
          idle = h.inv.idle;
        };
        around = record {
          alive = h.around.alive;
          covered = h.around.covered;
          limit = h.around.limit;
          forks = h.around.forks;
        };
      },
      refl,
    )
