-- ===== src/Process.antt =====
-- init/process.h and init/process.c: the kinds of process that a job has, and a table by kind.
use feature_d.Base.{Bool, if◌then◌else◌, Bytes, codes, same, Option, none, some, ◌≡◌, refl}

pub data ProcessType : Type 0 where
  main pre_start post_start pre_stop post_stop security : ProcessType

pub record Process : Type 0 where
  pub script : Bool
  pub command : Bytes

-- An array indexed by the kind.
pub record Table (A : Type 0) : Type 0 where
  pub main_slot : A
  pub pre_start_slot : A
  pub post_start_slot : A
  pub pre_stop_slot : A
  pub post_stop_slot : A
  pub security_slot : A

abbrev pub get : {A : Type 0} → Table A → ProcessType → A
get t main = t.main_slot
get t pre_start = t.pre_start_slot
get t post_start = t.post_start_slot
get t pre_stop = t.pre_stop_slot
get t post_stop = t.post_stop_slot
get t security = t.security_slot

abbrev pub set : {A : Type 0} → Table A → ProcessType → A → Table A
set t main a = record t { main_slot = a }
set t pre_start a = record t { pre_start_slot = a }
set t post_start a = record t { post_start_slot = a }
set t pre_stop a = record t { pre_stop_slot = a }
set t post_stop a = record t { post_stop_slot = a }
set t security a = record t { security_slot = a }

abbrev pub fill : {A : Type 0} → A → Table A
fill a = record {
  main_slot = a;
  pre_start_slot = a;
  post_start_slot = a;
  pre_stop_slot = a;
  post_stop_slot = a;
  security_slot = a;
}

unfoldable pub process_name : ProcessType → Bytes
process_name main = codes "main"
process_name pre_start = codes "pre-start"
process_name post_start = codes "post-start"
process_name pre_stop = codes "pre-stop"
process_name post_stop = codes "post-stop"
process_name security = codes "security"

-- The tests of the source one after another; `none` is the -1.
unfoldable pub process_from_name : Bytes → Option ProcessType
unfolding same
process_from_name s =
    if same s (codes "main")
    then some main
    else if same s (codes "pre-start")
    then some pre_start
    else if same s (codes "post-start")
    then some post_start
    else if same s (codes "pre-stop")
    then some pre_stop
    else if same s (codes "post-stop")
    then some post_stop
    else if same s (codes "security")
    then some security
    else none

-- A kind is found again by its name.
pub process_from_name-process_name : (p : ProcessType) → process_from_name (process_name p) ≡ some p
unfolding process_from_name process_name
process_from_name-process_name main = refl
process_from_name-process_name pre_start = refl
process_from_name-process_name post_start = refl
process_from_name-process_name pre_stop = refl
process_from_name-process_name post_stop = refl
process_from_name-process_name security = refl
