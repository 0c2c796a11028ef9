-- ===== src/Registry.antt =====
-- The registered classes and the configuration that they come from: the parts of
-- init/job_class.c and init/conf.c that a job uses when it goes away. A class is named by its
-- number; `classes` holds those that have not been freed, `registered` is the `job_classes` table.
use feature_d.Base.{
  ℕ, Bool, true, false, ◌&&◌, ◌==◌, if◌then◌else◌, Bytes, same, Option, none, some, List, [], ◌∷◌,
  ◌++◌,
}

pub record ClassEntry : Type 0 where
  pub id : ℕ
  pub name : Bytes
  pub session : Option ℕ
  pub deleted : Bool
  pub instances : List ℕ

-- A source of configuration; a file is the class that it defines, if it defines one.
pub record ConfSource : Type 0 where
  pub is_job_dir : Bool
  pub session : Option ℕ
  pub files : List (Option ℕ)

pub record Registry : Type 0 where
  pub classes : List ClassEntry
  pub registered : List ℕ
  pub conf_sources : List ConfSource

abbrev pub option_is : Option ℕ → Option ℕ → Bool
option_is none none = true
option_is none (some b) = false
option_is (some a) none = false
option_is (some a) (some b) = a == b

unfoldable pub find_class : ℕ → List ClassEntry → Option ClassEntry
find_class i [] = none
find_class i (c ∷ cs) = if c.id == i then some c else find_class i cs

unfoldable pub has_name : Bytes → ℕ → List ClassEntry → Bool
unfolding find_class
has_name name i cs = elim (find_class i cs) [ none ↦ false | some c ↦ same c.name name ]

unfoldable pub has_session : Option ℕ → ℕ → List ClassEntry → Bool
unfolding find_class
has_session session i cs = elim (find_class i cs) [
  | none ↦ false
  | some c ↦ option_is c.session session
]

select_file : Bytes → List ClassEntry → List (Option ℕ) → Option ℕ
select_file name cs [] = none
select_file name cs (none ∷ files) = select_file name cs files
select_file name cs (some i ∷ files) =
    if has_name name i cs then some i else select_file name cs files

unfoldable pub conf_select_job : Bytes → Option ℕ → List ClassEntry → List ConfSource → Option ℕ
unfolding select_file
conf_select_job name session cs [] = none
conf_select_job name session cs (source ∷ sources) =
    let later = conf_select_job name session cs sources in
    if source.is_job_dir && option_is source.session session
    then elim (select_file name cs source.files) [ some i ↦ some i | none ↦ later ]
    else later

unfoldable pub job_class_get_registered : Bytes → Option ℕ → List ClassEntry → List ℕ → Option ℕ
job_class_get_registered name session cs [] = none
job_class_get_registered name session cs (i ∷ is) =
    if has_name name i cs && has_session session i cs
    then some i
    else job_class_get_registered name session cs is

unfoldable pub remove_id : ℕ → List ℕ → List ℕ
remove_id i [] = []
remove_id i (j ∷ js) = if j == i then js else j ∷ remove_id i js

abbrev pub has_instances : Option ClassEntry → Bool
has_instances none = false
has_instances (some c) = elim c.instances [ [] ↦ false | _ ↦ true ]

-- `job_class_remove`: whether the class was taken out, and the registry.
unfoldable pub job_class_remove : ℕ → Option ℕ → Registry → Bool × Registry
unfolding remove_id has_session find_class
job_class_remove i session r =
    if has_session session i r.classes
    then if has_instances (find_class i r.classes)
      then (false, r)
      else (true, record r { registered = remove_id i r.registered })
    else (false, r)

unfoldable pub job_class_add : Option ℕ → Registry → Registry
job_class_add none r = r
job_class_add (some i) r = record r { registered = r.registered ++ (i ∷ []) }

-- `job_class_reconsider`: whether the class is not, or no longer, registered.
unfoldable pub job_class_reconsider : ℕ → Bytes → Option ℕ → Registry → Bool × Registry
unfolding conf_select_job job_class_get_registered job_class_remove job_class_add
job_class_reconsider i name session r =
    let best = conf_select_job name session r.classes r.conf_sources in
    if option_is (job_class_get_registered name session r.classes r.registered) (some i)
    then if option_is best (some i)
      then (false, r)
      else (let (removed, r') = job_class_remove i session r in
          if removed then (true, job_class_add best r') else (false, r))
    else (true, r)
