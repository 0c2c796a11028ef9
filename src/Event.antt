-- ===== src/Event.antt =====
-- init/event.c and init/blocked.c: the queue of events. An event is named by its number, which
-- stands for the pointer; the queue holds the events that have not been freed, oldest first.
pub mod Blockers
use feature_d.Base.{
  ℕ, zero, suc, ◌+◌, ◌-◌, ◌%◌, ◌<◌, Bool, true, false, ◌==◌, ltb, if◌then◌else◌, Bytes, Option,
  none, some, List, [], ◌∷◌, ◌++◌, ◌≡◌, refl, arith,
}
use feature_d.Environ.{Env}

pub data EventProgress : Type 0 where
  pending handling finished : EventProgress

-- What waits on an event or a job. A job is named by its number, a D-Bus message by its own.
pub data Blocked : Type 0 where
  blocked_job : ℕ → Blocked
  blocked_event : ℕ → Blocked
  blocked_emit_method : ℕ → Blocked
  blocked_job_start_method : ℕ → Blocked
  blocked_job_stop_method : ℕ → Blocked
  blocked_job_restart_method : ℕ → Blocked
  blocked_instance_start_method : ℕ → Blocked
  blocked_instance_stop_method : ℕ → Blocked
  blocked_instance_restart_method : ℕ → Blocked

pub record Event : Type 0 where
  pub id : ℕ
  pub session : Option ℕ
  pub name : Bytes
  pub env : Env
  pub fd : Option ℕ
  pub progress : EventProgress
  pub failed : Bool
  pub blockers : ℕ  -- unsigned int
  pub blocking : List Blocked

abbrev pub Events : Type 0
Events = List Event

unfoldable pub find_event : ℕ → Events → Option Event
find_event i [] = none
find_event i (e ∷ es) = if e.id == i then some e else find_event i es

unfoldable pub update_event : ℕ → (Event → Event) → Events → Events
update_event i f [] = []
update_event i f (e ∷ es) = if e.id == i then f e ∷ es else e ∷ update_event i f es

abbrev pub count_of : Option Event → ℕ
count_of none = 0
count_of (some e) = e.blockers

-- 0 for an event that is not in the queue.
unfoldable pub blockers_of : ℕ → Events → ℕ
unfolding find_event
blockers_of i es = count_of (find_event i es)

-- A new event stands at the end, pending.
unfoldable pub event_new : ℕ → Bytes → Env → Events → Events
event_new i name env es =
    es
    ++ (record {
      id = i;
      session = none;
      name = name;
      env = env;
      fd = none;
      progress = pending;
      failed = false;
      blockers = 0;
      blocking = [];
    }
        ∷ [])

unfoldable pub event_block : ℕ → Events → Events
unfolding update_event
event_block i es = update_event i (λ e. record e { blockers = (e.blockers + 1) % 4294967296 }) es

-- `none` is the failed assertion that there is a blocker.
unfoldable pub event_unblock : ℕ → Events → Option Events
unfolding update_event blockers_of
event_unblock i es =
    if ltb 0 (blockers_of i es)
    then some (update_event i (λ e. record e { blockers = e.blockers - 1 }) es)
    else none
