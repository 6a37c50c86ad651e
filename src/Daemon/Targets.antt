-- ===== src/Daemon/Targets.antt =====
-- The targets of the daemon and the restarts of their jobs: `TargetDB::from_uri` of
-- lantern_cli/src/daemon/types.rs, `get_target_databases` and `spawn_job` of
-- lantern_cli/src/daemon/mod.rs. A text is its bytes. The runs of a job are parameters; the handles
-- that cancel jobs are left out.
pub mod Names
pub mod Restarts
use lanterndb.Prelude.{
  ℕ, suc, ◌*◌, Bool, true, false, ◌||◌, Option, none, some, List, [], ◌∷◌, ◌++◌, ◌==◌, ltb,
  if◌then◌else◌, length, take, drop, Result, ok, err,
}

pub data TargetError : Type 0 where
  invalid_format no_database slice_panicked no_source : TargetError

pub record TargetDb : Type 0 where
  pub uri : List ℕ
  pub name : List ℕ

abbrev pub at_sign : ℕ
at_sign = 64

abbrev pub slash : ℕ
slash = 47

-- The last of the parts between the `@`s, when there are two at least; `seen` is whether there was
-- one before `part`.
pub last_part : Bool → List ℕ → List ℕ → Option (List ℕ)
last_part false part [] = none
last_part true part [] = some part
last_part seen part (c ∷ uri) =
    last_part (seen || (c == at_sign)) (if c == at_sign then [] else part ++ c ∷ []) uri

-- `find("/")`
pub find_slash : List ℕ → Option ℕ
find_slash [] = none
find_slash (c ∷ text) = if c == slash then some 0 else later (find_slash text)
  where
    later : Option ℕ → Option ℕ
    later none = none
    later (some i) = some (suc i)

abbrev named_by : List ℕ → List ℕ → Option ℕ → Result TargetError TargetDb
named_by db_url db_host none = err no_database
named_by db_url db_host (some index) =
    if ltb (length db_host) 5
    then err slice_panicked
    else ok (record { uri = db_url; name = take 5 db_host ++ drop index db_host })

abbrev hosted_by : List ℕ → Option (List ℕ) → Result TargetError TargetDb
hosted_by db_url none = err invalid_format
hosted_by db_url (some db_host) = named_by db_url db_host (find_slash db_host)

unfoldable pub from_uri : List ℕ → Result TargetError TargetDb
unfolding last_part find_slash
from_uri db_url = hosted_by db_url (last_part false [] db_url)

abbrev with_target :
    Result TargetError TargetDb
    → Result TargetError (List TargetDb)
    → Result TargetError (List TargetDb)
with_target (ok target) (ok targets) = ok (target ∷ targets)
with_target (ok target) (err e) = err e
with_target (err e) targets = err e

-- The targets given by hand: the first that is invalid fails them all.
pub collect_targets : List (List ℕ) → Result TargetError (List TargetDb)
collect_targets [] = ok []
collect_targets (uri ∷ uris) = with_target (from_uri uri) (collect_targets uris)

abbrev with_valid :
    Result TargetError TargetDb
    → Result TargetError (List TargetDb)
    → Result TargetError (List TargetDb)
with_valid (ok target) (ok targets) = ok (target ∷ targets)
with_valid (err slice_panicked) targets = err slice_panicked
with_valid (err e) targets = targets
with_valid (ok target) (err e) = err e

-- The targets of the master database: those that are invalid are left out.
pub filter_targets : List (List ℕ) → Result TargetError (List TargetDb)
filter_targets [] = ok []
filter_targets (uri ∷ uris) = with_valid (from_uri uri) (filter_targets uris)

-- The second list is what the master database holds, if one is given.
unfoldable pub get_target_databases :
    Option (List (List ℕ)) → Option (List (List ℕ)) → Result TargetError (List TargetDb)
unfolding collect_targets filter_targets
get_target_databases (some target_db) master_db = collect_targets target_db
get_target_databases none (some rows) = filter_targets rows
get_target_databases none none = err no_source

-- How a run of a job ended: well, or with an error so many seconds after the last retry.
pub data Run : Type 0 where
  finished : Run
  failed : ℕ → Run

-- The seconds that `spawn_job` sleeps between the runs; the last run is still going when no end is
-- given.
unfoldable pub spawn_job : ℕ → List Run → List ℕ
spawn_job retry_interval [] = []
spawn_job retry_interval (finished ∷ runs) = []
spawn_job retry_interval (failed elapsed ∷ runs) =
    let interval = if ltb 30 elapsed then 10 else retry_interval in
    interval ∷ spawn_job (interval * 2) runs

abbrev pub first_retry : ℕ
first_retry = 5
