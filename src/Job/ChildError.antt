-- ===== src/Job/ChildError.antt =====
-- job_child_error_handler of init/job.c: a process of the job could not be set up, and has gone. The
-- source is called by job_process_child_reader, once the child has told what went wrong.
pub mod Kept
use feature_d.Base.{some}
use feature_d.Process.{ProcessType, set, main, pre_start, post_start, pre_stop, post_stop, security}
use feature_d.Job.{job_stop, negsuc}
use feature_d.Job.Machine.{M, Ctx, ◌>>◌}
use feature_d.Job.Finished.{job_failed}
use feature_d.Job.Change.{job_change_goal, job_advance}

-- The job without the process.
abbrev pub lost : ProcessType → Ctx → Ctx
lost p c = record c { job = record c.job { pid = set c.job.pid p 0 } }

-- The job has failed by the process, with -1 for its status, and is to stop.
unfoldable pub fail_and_stop : ProcessType → M (Unit {0})
unfolding job_failed job_change_goal
fail_and_stop p = job_failed (some p) (negsuc 0) >> job_change_goal job_stop

unfoldable pub job_child_error_handler : ProcessType → M (Unit {0})
unfolding fail_and_stop job_advance
job_child_error_handler security c = fail_and_stop security (lost security c)
job_child_error_handler pre_start c = (fail_and_stop pre_start >> job_advance) (lost pre_start c)
job_child_error_handler main c = (fail_and_stop main >> job_advance) (lost main c)
job_child_error_handler post_start c = job_advance (lost post_start c)
job_child_error_handler pre_stop c = job_advance (lost pre_stop c)
job_child_error_handler post_stop c = (fail_and_stop post_stop >> job_advance) (lost post_stop c)
