-- ===== src/Examples/Turns.antt =====
-- The event that stops the running daemon of a class is also in its `start on` (init/event.c).
use feature_d.Base.{codes, some, [], ◌∷◌, refl, arith, none, true}
use feature_d.Environ.{environ_all_valid}
use feature_d.Event.{find_event, blockers_of}
use feature_d.Queue.{Class, Daemon}
use feature_d.Queue.Well.{Well}
use feature_d.Queue.Calls.{job_class_start, job_class_stop, job_class_restart}
use feature_d.Queue.Calls.Served.{Serves, class_calls-Serve}
use feature_d.Queue.Poll.{Polls, poll_event, poll_event-Polls}
use feature_d.Queue.Pending.{find_of, event_pending}
use feature_d.Queue.Pending.Passed.{Meets, event_pending-Meets}
use feature_d.Examples.Stops.{on_startup, startup}
use feature_d.Examples.Stops.{daemon, daemon-Sound}

abbrev daemons : Class
daemons = record {
  job_class = daemon.job.class;
  instance = codes "main";
  env = [];
  start_on = some on_startup;
  stop_on = some on_startup;
}

abbrev host : Daemon
host = record {
  jobs = daemon.job ∷ [];
  classes = daemons ∷ [];
  next_job = 4;
  job_environ = codes "PATH=/bin" ∷ [];
  world = record daemon.world {
    events = startup ∷ [];
    registry = record { classes = []; registered = 1 ∷ []; conf_sources = [] };
  };
}

host-Well : Well host
unfolding blockers_of find_event
host-Well = record {
  jobs_ok = (
    record { inv = daemon-Sound.inv; kinds = (tt, (tt, tt)); limit = ground arith; tree = refl },
    tt,
  );
  classes_ok = (record { start_ok = refl; stop_ok = (refl, refl); limit_ok = ground arith }, tt);
  older = (ground arith, tt);
  distinct = (tt, tt);
  covered = λ i. ground arith;
  fresh = ((ground arith, tt, refl), tt);
  waiting = λ k. ground arith;
  forks = λ m. ground arith;
}

event_pending-Meets_example : Meets 7 startup host (event_pending 7 host)
unfolding blockers_of find_event find_of environ_all_valid
event_pending-Meets_example =
    event_pending-Meets 1 7 startup host host-Well refl refl refl (ground arith, tt)
      ((ground arith, ground arith), tt) (refl, tt) (tt, tt) (λ i. ground arith)

-- The class without a name for its instances, as the job has none.
abbrev nameless : Class
nameless = record daemons { instance = [] }

class_calls-Serve_example :
    Serves host (job_class_start none nameless [] 9 true host)
    × Serves host (job_class_stop none nameless [] 9 true host)
    × Serves host (job_class_restart none nameless [] 9 true host)
class_calls-Serve_example =
    class_calls-Serve none nameless [] 9 true host host-Well
      (record { start_ok = refl; stop_ok = (refl, refl); limit_ok = ground arith })

poll_event-Polls_example : Polls host (poll_event 7 host)
unfolding blockers_of find_event find_of environ_all_valid
poll_event-Polls_example =
    poll_event-Polls 1 7 startup host host-Well refl (λ p. ground (arith, p)) refl
      (ground arith, tt) ((ground arith, ground arith), tt) (refl, tt) (λ i. ground arith)
