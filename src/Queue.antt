-- ===== src/Queue.antt =====
-- The queue of events over all jobs (init/event.c): what an event does when it has finished
-- (event_finished). The daemon is the list of all jobs with the classes and the
-- world that they share.
pub mod Held
pub mod Destroyed
pub mod Well
pub mod Finished
pub mod Freed
pub mod Pending
pub mod Calls
pub mod Poll
use feature_d.Base.{
  ℕ, suc, ◌==◌, Bool, true, false, not, ◌&&◌, if◌then◌else◌, Bytes, codes, same, is_some, Option,
  none, some, List, [], ◌∷◌, ◌++◌,
}
use feature_d.Event.{
  EventProgress, finished, Event, Events, Blocked, blocked_job, blocked_emit_method, find_event,
  update_event, event_new, event_unblock,
}
use feature_d.EventOperator.{EventOperator, gate, leaf}
use feature_d.Environ.{Env}
use feature_d.Registry.{find_class}
use feature_d.Job.{Job, JobClass}
use feature_d.Job.Machine.{M, Ctx, World, Output, replied, replied_error, event_emitted, fd_closed}
use feature_d.Job.Change.{event_released}

-- A class with what the queue reads of it.
pub record Class : Type 0 where
  pub job_class : JobClass
  pub instance : Bytes
  pub env : Env
  pub start_on : Option EventOperator
  pub stop_on : Option EventOperator

-- `next_job` is the number of the next job, `job_environ` the table of init/job_class.c.
pub record Daemon : Type 0 where
  pub jobs : List Job
  pub classes : List Class
  pub next_job : ℕ
  pub job_environ : Env
  pub world : World

unfoldable pub find_job : ℕ → List Job → Option Job
find_job k [] = none
find_job k (j ∷ js) = if j.id == k then some j else find_job k js

unfoldable pub put_job : Job → List Job → List Job
put_job d [] = []
put_job d (j ∷ js) = if j.id == d.id then d ∷ js else j ∷ put_job d js

unfoldable pub drop_job : ℕ → List Job → List Job
drop_job k [] = []
drop_job k (j ∷ js) = if j.id == k then js else j ∷ drop_job k js

abbrev pub unblock_held : Option ℕ → Events → Option Events
unblock_held none es = some es
unblock_held (some i) es = event_unblock i es

-- The destructor of each node of a tree that is freed.
unfoldable pub event_operator_destroy : EventOperator → Events → Option Events
event_operator_destroy (leaf v name env ev) es = unblock_held ev es
event_operator_destroy (gate type v left right) es = elim (event_operator_destroy left es) [
  | none ↦ none
  | some es' ↦ event_operator_destroy right es'
]

abbrev pub destroy_held : Option EventOperator → Events → Option Events
destroy_held none es = some es
destroy_held (some t) es = event_operator_destroy t es

unfoldable pub class_tree : ℕ → List Class → Option EventOperator
class_tree i [] = none
class_tree i (c ∷ cs) = if c.job_class.id == i then c.start_on else class_tree i cs

unfoldable pub drop_class : ℕ → List Class → List Class
drop_class i [] = []
drop_class i (c ∷ cs) = if c.job_class.id == i then cs else c ∷ drop_class i cs

abbrev pub without_class : ℕ → Daemon → Option Events → Option Daemon
without_class i dm none = none
without_class i dm (some es) =
    some (record dm { classes = drop_class i dm.classes; world = record dm.world { events = es } })

-- A class that has been freed takes its `start on` along. `nih_free (class)` would free what other
-- instances it has, too; the model lets a class go with the one job that leaves it.
abbrev pub class_left : ℕ → Bool → Daemon → Option Daemon
class_left i false dm = some dm
class_left i true dm = without_class i dm (destroy_held (class_tree i dm.classes) dm.world.events)

abbrev pub class_freed : ℕ → World → World → Bool
class_freed i v w =
    is_some (find_class i v.registry.classes) && not (is_some (find_class i w.registry.classes))

abbrev pub dropped : Daemon → Ctx → Option Events → Option Daemon
dropped dm d none = none
dropped dm d (some es) =
    class_left d.job.class.id (class_freed d.job.class.id dm.world d.world)
      (record dm { jobs = drop_job d.job.id dm.jobs; world = record d.world { events = es } })

-- The job after a handler: it is kept, or it has been freed with the tree that belongs to it.
abbrev pub put_back : Daemon → Ctx → Option Daemon
put_back dm d =
    if d.freed
    then dropped dm d (destroy_held d.job.stop_on d.world.events)
    else some (record dm { jobs = put_job d.job dm.jobs; world = d.world })

abbrev pub handled : Daemon → Option (Unit {0} × Ctx) → Option Daemon
handled dm none = none
handled dm (some (u, d)) = put_back dm d

abbrev pub on_found : M (Unit {0}) → Daemon → Option Job → Option Daemon
on_found m dm none = none
on_found m dm (some j) = handled dm (m (record { job = j; world = dm.world; freed = false }))

-- A handler on the job with a number; `none` also where there is no such job.
unfoldable pub run_on : M (Unit {0}) → ℕ → Daemon → Option Daemon
run_on m k dm = on_found m dm (find_job k dm.jobs)

abbrev pub tail : List Blocked → List Blocked
tail [] = []
tail (b ∷ bs) = bs

abbrev pub with_events : Events → Daemon → Daemon
with_events es dm = record dm { world = record dm.world { events = es } }

abbrev pub send_out : Output → Daemon → Daemon
send_out o dm = record dm { world = record dm.world { out = o ∷ dm.world.out } }

-- The first entry of what an event blocks is freed.
abbrev pub drop_entry : ℕ → Daemon → Daemon
drop_entry i dm =
    with_events (update_event i (λ e. record e { blocking = tail e.blocking }) dm.world.events) dm

abbrev pub failed_of : Option Event → Bool
failed_of none = false
failed_of (some e) = e.failed

abbrev pub emit_reply : Bool → ℕ → Output
emit_reply true m = replied_error (blocked_emit_method m)
emit_reply false m = replied (blocked_emit_method m)

-- One round of the loop of `event_finished`, up to the end of the entry.
abbrev pub finish_entry : ℕ → Blocked → Daemon → Option Daemon
finish_entry i (blocked_job k) dm = run_on event_released k dm
finish_entry i (blocked_emit_method m) dm =
    some (send_out (emit_reply (failed_of (find_event i dm.world.events)) m) dm)
finish_entry i b dm = none

unfoldable pub finish_entries : ℕ → List Blocked → Daemon → Option Daemon
unfolding run_on
finish_entries i [] dm = some dm
finish_entries i (b ∷ bs) dm = elim (finish_entry i b dm) [
  | none ↦ none
  | some dm' ↦ finish_entries i bs (drop_entry i dm')
]

-- `strrchr (name, '/')`.
unfoldable pub last_slash : Bytes → Option Bytes
last_slash [] = none
last_slash (c ∷ name) = elim (last_slash name) [
  | some s ↦ some s
  | none ↦ if c == b'/' then some (c ∷ name) else none
]

abbrev pub is_failed_name : Option Bytes → Bool
is_failed_name none = false
is_failed_name (some s) = same s (codes "/failed")

abbrev pub fail_event : Event → World → World
fail_event e w = record w {
  events =
      update_event w.next_event (λ v. record v { session = e.session })
        (event_new w.next_event (e.name ++ codes "/failed") e.env w.events);
  next_event = suc w.next_event;
}

-- A failed event queues another, unless it is one of that kind.
unfoldable pub queue_failed : Event → World → World
unfolding last_slash
queue_failed e w =
    if e.failed && not (is_failed_name (last_slash e.name)) then fail_event e w else w

unfoldable pub remove_event : ℕ → Events → Events
remove_event i [] = []
remove_event i (e ∷ es) = if e.id == i then es else e ∷ remove_event i es

-- The end of `event_finished`, when all entries are gone.
unfoldable pub free_event : ℕ → Option Event → Daemon → Option Daemon
unfolding queue_failed remove_event
free_event i none dm = none
free_event i (some e) dm =
    let w = queue_failed e (record dm.world { out = fd_closed e.fd ∷ dm.world.out }) in
    some (record dm {
      world = record w {
        events = remove_event i w.events;
        out = event_emitted e.name e.env ∷ w.out;
      };
    })

abbrev pub is_finished : EventProgress → Bool
is_finished finished = true
is_finished p = false

-- `none` also where the event is not in the queue.
abbrev pub finish_found : ℕ → Option Event → Daemon → Option Daemon
finish_found i none dm = none
finish_found i (some e) dm =
    if is_finished e.progress
    then elim (finish_entries i e.blocking dm) [
      | none ↦ none
      | some dm' ↦ free_event i (find_event i dm'.world.events) dm'
    ]
    else none

unfoldable pub event_finished : ℕ → Daemon → Option Daemon
unfolding finish_entries free_event
event_finished i dm = finish_found i (find_event i dm.world.events) dm
