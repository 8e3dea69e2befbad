-- ===== src/Cache.antt =====
-- The local cache of runtime state (immune_system/cache.py). The JSON text of the file is stood for by
-- the values that it holds; a baseline is of any type `B`. A write to the disk is an outcome given to
-- the call that makes it, and the locks are left out: a method runs as one step.
pub mod Restart
use ai_agent_immune_system.Common.{
  Bool, List, Option, Result, String, String-discrete, [], append_text, contains, false,
  if◌then◌else◌, ite, none, ok, os_error, raise, some, some_or, true, truthy, ℕ, ◌++◌, ◌==◌, ◌∷◌,
}
use ai_agent_immune_system.Common.Dict
use ai_agent_immune_system.Common.Dict.{Dict}

module _ (B : Type 0) where
  pub record CacheState : Type 0 where
    pub run_id : Option String
    pub baselines : Dict String B
    pub quarantine : List String
    pub api_key : Option String

  -- The keys that a cache file may have.
  pub record CacheFile : Type 0 where
    pub schema_version : Option ℕ
    pub run_id : Option (Option String)
    pub baselines : Option (Dict String B)
    pub quarantine : Option (List String)
    pub api_key : Option (Option String)

-- What there is at the path of the cache; a corrupt file is one that does not load as a dictionary.
pub data Disk (B : Type 0) : Type 0 where
  missing : Disk B
  corrupt : Disk B
  stored : CacheFile B → Disk B

-- How a write ends: the directory cannot be made, the temporary file cannot be made, filled or
-- renamed, the mode of the renamed file cannot be set, or all goes well.
pub data Write : Type 0 where
  no_directory not_replaced mode_not_set written : Write

-- A `CacheManager`, with the disk that it writes to.
pub record CacheManager (B : Type 0) : Type 0 where
  pub dirty : Bool
  pub state : CacheState B
  pub disk : Disk B

-- `_SCHEMA_VERSION`
abbrev pub schema_version : ℕ
schema_version = 1

module _ (B : Type 0) where
  -- `_empty_state`
  unfoldable pub empty_state : CacheState B
  empty_state = record { run_id = none; baselines = []; quarantine = []; api_key = none }

  -- The constructor
  unfoldable pub init : Disk B → CacheManager B
  init disk = record { dirty = false; state = empty_state; disk = disk }

-- `q.remove(agent_id)`
unfoldable pub remove_first : String → List String → List String
remove_first i [] = []
remove_first i (j ∷ q) = let rest = remove_first i q in ite (String-discrete i j) q (j ∷ rest)

module _ {B : Type 0} where
  -- `merged`
  unfoldable pub merged : CacheFile B → CacheState B
  merged f = record {
    run_id = some_or f.run_id none;
    baselines = some_or f.baselines [];
    quarantine = some_or f.quarantine [];
    api_key = some_or f.api_key none;
  }

  unfoldable pub load_file : CacheFile B → CacheState B → CacheState B
  load_file f s = if some_or f.schema_version 0 == schema_version then merged f else s

  unfoldable pub load_disk : Disk B → CacheState B → CacheState B
  load_disk missing s = s
  load_disk corrupt s = s
  load_disk (stored f) s = load_file f s

  unfoldable pub load : CacheManager B → CacheManager B
  load m = record m { state = load_disk m.disk m.state }

  -- What `json.dumps` writes of a state.
  unfoldable pub snapshot : CacheState B → CacheFile B
  snapshot s = record {
    schema_version = some schema_version;
    run_id = some s.run_id;
    baselines = some s.baselines;
    quarantine = some s.quarantine;
    api_key = some s.api_key;
  }

  unfoldable pub save : CacheManager B → Write → CacheManager B × Result (Unit {0})
  save m no_directory = (m, raise os_error)
  save m not_replaced = (record m { dirty = false }, raise os_error)
  save m mode_not_set =
      (record m { dirty = false; disk = stored (snapshot m.state) }, raise os_error)
  save m written = (record m { dirty = false; disk = stored (snapshot m.state) }, ok tt)

  unfoldable pub save_if_dirty : CacheManager B → Write → CacheManager B × Result (Unit {0})
  save_if_dirty m w = if m.dirty then save m w else (m, ok tt)

  unfoldable pub get_run_id : CacheManager B → String → CacheManager B × String
  get_run_id m hex =
      let rid = some_or m.state.run_id "" in
      if truthy rid then (m, rid) else (
        record m {
          dirty = true;
          state = record m.state { run_id = some (append_text "run-" hex) };
        },
        append_text "run-" hex,
      )

  unfoldable pub set_run_id : CacheManager B → String → CacheManager B
  set_run_id m run_id = record m { dirty = true; state = record m.state { run_id = some run_id } }

  unfoldable pub get_baselines : CacheManager B → Dict String B
  get_baselines m = m.state.baselines

  unfoldable pub set_baseline : CacheManager B → String → B → CacheManager B
  set_baseline m agent_id profile = record m {
    dirty = true;
    state = record m.state {
      baselines = Dict.put String-discrete agent_id profile m.state.baselines;
    };
  }

  unfoldable pub get_baseline : CacheManager B → String → Option B
  get_baseline m agent_id = Dict.get String-discrete agent_id m.state.baselines

  unfoldable pub get_quarantine : CacheManager B → List String
  get_quarantine m = m.state.quarantine

  unfoldable pub set_quarantine : CacheManager B → List String → CacheManager B
  set_quarantine m agent_ids = record m {
    dirty = true;
    state = record m.state { quarantine = agent_ids };
  }

  unfoldable pub add_quarantine : CacheManager B → String → CacheManager B
  add_quarantine m agent_id =
      if contains String-discrete agent_id m.state.quarantine then m else record m {
        dirty = true;
        state = record m.state { quarantine = m.state.quarantine ++ agent_id ∷ [] };
      }

  unfoldable pub remove_quarantine : CacheManager B → String → CacheManager B
  remove_quarantine m agent_id =
      if contains String-discrete agent_id m.state.quarantine
      then record m {
        dirty = true;
        state = record m.state { quarantine = remove_first agent_id m.state.quarantine };
      }
      else m

  -- `env_key` is the variable of the environment, empty where it is not set.
  unfoldable pub get_api_key : CacheManager B → String → String → CacheManager B × String
  get_api_key m env_key hex =
      let key = some_or m.state.api_key "" in
      if truthy env_key then (m, env_key) else if truthy key then (m, key) else (
        record m {
          dirty = true;
          state = record m.state { api_key = some (append_text "imm-" hex) };
        },
        append_text "imm-" hex,
      )

  -- A round of `start_periodic_flush`, which catches what a save raises.
  unfoldable pub flush : CacheManager B → Write → CacheManager B
  flush m w = if m.dirty then (save m w).0 else m

  -- `shutdown`, apart from the task that it cancels
  unfoldable pub shutdown : CacheManager B → Write → CacheManager B
  shutdown m w = if m.dirty then (save m w).0 else m
