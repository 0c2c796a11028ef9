-- ===== src/Lib.antt =====
-- The init daemon of Upstart (init/): its events, its expressions of events, its environment tables
-- and the state machine of its jobs.
--
-- An event is put on a queue and blocks there as long as something holds it. The trees behind
-- `start on` and `stop on` match events and block those that they have seen. A job that starts takes
-- those events over into the list of what it blocks, moves through its states, starts the processes
-- of its class on the way, emits events of its own and waits for them, and in the end answers what
-- it blocks. The files:
--
-- Base, Base/*: tests, byte strings and lists that the others share.
-- Environ: the tables of init/environ.c (environ_add, environ_remove, environ_append, environ_set,
--   environ_lookup, environ_getn, environ_all_valid). Environ/Table, Distinct and Remove hold their
--   laws. Environ/Expand is environ_expand_until and environ_expand; Environ/Expand/Total is about
--   its fuel, Environ/Expand/References and References/Braced about each form of reference.
-- Process: init/process.h and the names of init/process.c.
-- Event: struct Event and struct Blocked (init/event.h, init/blocked.h), event_new, event_block and
--   event_unblock of init/event.c; Event/Blockers counts the blockers.
-- EventOperator: init/event_operator.c; Meaning says what an expression means without the loop of
--   the code, and Values, Unmatched, Counts, Collect, Taken and Defined hold its laws.
-- Registry: the calls of init/job_class.c and init/conf.c that a job makes when it goes away.
-- Job: the structures of init/job.h and init/job_class.h; Job/Names reads their names back.
--   Job/Machine is the state that a handler works on: the job, and the daemon around it.
--   Job/Finished is job_finished, job_failed and
--   job_emit_event; Job/Start is job_process_start, job_process_kill and
--   job_process_kill_timer of init/job_process.c, with Job/Start/Kill;
--   Job/Change is job_change_goal, job_change_state and job_next_state. Job/Invariant is what holds
--   of a job between two handlers. Job/Finished/Covered and Answered are about the answers; the
--   other children of Job/Change follow the loop from phase to phase (Phases, Spawns, Rests, Ends), from each state
--   (Advance, Released) and from the calls of other parts (Handlers), and Quiet is about
--   what a change of goal leaves alone.
--   Job/Ended is job_process_terminated, job_process_catch_runaway and job_process_stopped of
--   init/job_process.c; Runaway is about the limit on respawns, the other children about the job
--   that a process has left.
--   Job/Trace is the trace of a process that forks (job_process_trace_new, job_process_trace_fork and
--   the others) of init/job_process.c, Job/Trace/Children is job_process_handler and
--   job_process_find; Spawned and Kept are about one job, Found about the search for it.
--   Job/Ledger is what a job holds in the queue, and how often it stands in what an event blocks; its
--   children are about the answers and about trees, Job/Change/Moves, Entered and Ledger about a
--   change of state.
--   Job/ChildError is job_child_error_handler of init/job.c.
--   Job/StopOn is what event_pending_handle_jobs of init/event.c does with the `stop on` of one job;
--   StopOn/Taken is about the events that the job takes over, StopOn/Kept about the whole.
--   Job/Request is job_start, job_stop and job_restart, the calls from the D-Bus interface, under the
--   names instance_start, instance_stop and instance_restart; Job/Request/Restart is about the last.
-- ParseOn: the parser of `start on` and `stop on` of init/parse_job.c (parse_on, parse_on_operator,
--   parse_on_paren, parse_on_operand, parse_on_collect), on the tokens that libnih delivers.
--   ParseOn/Grammar is the grammar of the expressions without the parser; Positional is about the
--   check of conditions. Collects reads the stack back as input, Steps and Derived follow the parser,
--   Goes and Parses the grammar.
-- Stanzas: the handlers stanza_* of init/parse_job.c, with parse_exec, parse_script and
--   parse_process: Stanzas/Numbers those that read numbers, Fields those that only differ in a field,
--   Table the limits, the profile and the table itself. Reader is what libnih and the C library do at
--   a place of the file. Sane, Untouched and Kept are about the ranges of the settings, Fuel about the
--   loop of `normal exit`.
-- Queue: event_finished of init/event.c over all jobs, with the jobs and classes that are freed on
--   the way (the end of job_change_state, event_operator_destroy). Queue/Held is about the lists of
--   jobs, Well about the daemon between two events, Destroyed about trees that are freed, Finished
--   and Freed about the loop of event_finished and its end.
-- Queue/Pending: event_pending of init/event.c, with job_class_induct_job and job_class_environment of
--   init/job_class.c, job_new of init/job.c and event_operator_fds. Ready is about the daemon while an
--   event is handled, Started about one job that starts, Stopped about the loop over the instances,
--   Trees about the `start on` of a class, Made about a new instance, Met about what
--   a class makes of an event, Inducted, Classes, Listed and Passed about the loop over the classes.
-- Queue/Calls: job_class_start, job_class_stop and job_class_restart of init/job_class.c; Calls/Fair is
--   about the job, Calls/Served about the answers.
-- Queue/Poll: the body of the loop of event_poll of init/event.c.
-- Quiesce: init/quiesce.c, the end of a session init, with job_process_jobs_running and
--   job_class_max_kill_timeout; Quiesce/Steps is about one call of the timer, Quiesce/Ends about all.
-- Examples: the theorems at concrete inputs.
--
-- Conventions. Pointers to events, jobs and classes are their numbers, hash tables and lists are
-- lists, an array indexed by process type is a Table. A handler takes the state and answers the
-- state after it; `none` is a failed nih_assert, which ends the daemon. Memory allocation does not
-- fail, as the source retries it or gives up; a job that has been freed is marked so. What the C
-- library, libnih and the kernel answer are the fields of System, Tracer (the calls of ptrace) and
-- Reader, or parameters of the same names.
-- D-Bus signals and replies, signals sent and processes started are collected as outputs. The model
-- is that of the system init without cgroups, and Quiesce that of a session init.
-- `unsigned int blockers` keeps its wrap-around at 2^32.
--
-- Fuel. environ_expand runs with one more round than the string has bytes, since each round passes
-- one byte at least. The loop of `normal exit` has the length of the rest of the file as fuel, and
-- takes some of it in each round. job_change_state runs twelve rounds of its loop: its longest way,
-- from `starting` to `running` with no process on it, takes nine.
--
-- Not modelled: the child side of a spawned process and the pipe to it, the log and utmp, the
-- rounds of event_poll over the queue, the descriptors that an event hands to the processes of a
-- job (but for their numbers in UPSTART_FDS), the other instances that would be freed with a class
-- (leave_class and class_left let the class and the one job go), the stanza `cgroup` and the
-- positions in a job file,
-- sessions, logs, the D-Bus entry points and the transfer of state; init/main.c, util/ and extra/
-- are input and output. A daemon is well where all jobs are sound, with numbers of their own, the
-- events have at least the blockers that jobs and classes hold on them, and a job stands in what
-- the events block just once where it waits. A sound job is one whose class has a kill timeout
-- other than 0, as the source asserts when it sets the timer. What job_process_stop_all does to
-- the jobs is left open in Quiesce.
mod Base
pub mod Environ
pub mod ParseOn
pub mod Stanzas
pub mod Process
pub mod Event
pub mod EventOperator
pub mod Queue
pub mod Quiesce
pub mod Registry
pub mod Job
mod Examples
