-- ===== src/Cache/Restart.antt =====
-- What a restart finds on the disk (immune_system/cache.py).
use ai_agent_immune_system.Common.{
  All, Bool, Bool-cases, List, String, [], ap, arith, false, if◌then◌else◌, inl, inr, os_error,
  raise, refl, subst, sym, true, ◌∷◌, ◌≡◌,
}
use ai_agent_immune_system.Cache.{
  CacheManager, Disk, Write, add_quarantine, flush, get_api_key, get_run_id, init, load, load_disk,
  load_file, merged, mode_not_set, no_directory, not_replaced, remove_quarantine, save,
  save_if_dirty, set_baseline, set_quarantine, set_run_id, shutdown, snapshot, written,
}

-- A call of the cache that may change it.
pub data Call (B : Type 0) : Type 0 where
  get_run_id_call : String → Call B
  set_run_id_call : String → Call B
  set_baseline_call : String → B → Call B
  set_quarantine_call : List String → Call B
  add_quarantine_call : String → Call B
  remove_quarantine_call : String → Call B
  get_api_key_call : String → String → Call B
  save_call : Write → Call B
  save_if_dirty_call : Write → Call B
  flush_call : Write → Call B
  shutdown_call : Write → Call B

-- Whether a call's write, where it makes one, does not fail once the flag is cleared.
abbrev pub is_replaced : Write → Bool
is_replaced not_replaced = false
is_replaced _ = true

module _ {B : Type 0} where
  unfoldable pub call : CacheManager B → Call B → CacheManager B
  call m (get_run_id_call hex) = (get_run_id m hex).0
  call m (set_run_id_call run_id) = set_run_id m run_id
  call m (set_baseline_call agent_id profile) = set_baseline m agent_id profile
  call m (set_quarantine_call agent_ids) = set_quarantine m agent_ids
  call m (add_quarantine_call agent_id) = add_quarantine m agent_id
  call m (remove_quarantine_call agent_id) = remove_quarantine m agent_id
  call m (get_api_key_call env_key hex) = (get_api_key m env_key hex).0
  call m (save_call w) = (save m w).0
  call m (save_if_dirty_call w) = (save_if_dirty m w).0
  call m (flush_call w) = flush m w
  call m (shutdown_call w) = shutdown m w

  unfoldable pub calls : CacheManager B → List (Call B) → CacheManager B
  calls m [] = m
  calls m (c ∷ cs) = calls (call m c) cs

  abbrev pub replaces : Call B → Bool
  replaces (save_call w) = is_replaced w
  replaces (save_if_dirty_call w) = is_replaced w
  replaces (flush_call w) = is_replaced w
  replaces (shutdown_call w) = is_replaced w
  replaces _ = true

  -- A new manager on the same disk, after its `load`.
  unfoldable pub restart : CacheManager B → CacheManager B
  restart m = load (init B m.disk)

  -- A restart finds the state, unless the manager knows that it is not saved.
  abbrev pub Reloads : CacheManager B → Type 0
  Reloads m = m.dirty ≡ false → (restart m).state ≡ m.state

  save-Reloads :
      (m : CacheManager B) (w : Write) → is_replaced w ≡ true → Reloads m → Reloads (save m w).0
  unfolding save restart load load_disk load_file snapshot merged init
  save-Reloads m no_directory e h = h
  save-Reloads m not_replaced e h = cc
  save-Reloads m mode_not_set e h = λ clean. refl
  save-Reloads m written e h = λ clean. refl

  save_if-Reloads :
      (m : CacheManager B) (w : Write)
      → is_replaced w ≡ true
      → Reloads m
      → Reloads (if m.dirty then (save m w).0 else m)
  save_if-Reloads m w e h = elim (Bool-cases m.dirty) [
    | inl is ↦ subst (λ b. Reloads (if b then (save m w).0 else m)) (sym is) (save-Reloads m w e h)
    | inr isnt ↦ subst (λ b. Reloads (if b then (save m w).0 else m)) (sym isnt) h
  ]

  save_if_dirty-same :
      (m : CacheManager B) (w : Write)
      → (save_if_dirty m w).0 ≡ (if m.dirty then (save m w).0 else m)
  unfolding save_if_dirty
  save_if_dirty-same m w = ground arith

  call-Reloads :
      (m : CacheManager B) (c : Call B) → replaces c ≡ true → Reloads m → Reloads (call m c)
  unfolding call get_run_id set_run_id set_baseline set_quarantine add_quarantine remove_quarantine
      get_api_key save_if_dirty flush shutdown
  call-Reloads m (get_run_id_call hex) e h = ground (arith, h)
  call-Reloads m (set_run_id_call run_id) e h = cc
  call-Reloads m (set_baseline_call agent_id profile) e h = cc
  call-Reloads m (set_quarantine_call agent_ids) e h = cc
  call-Reloads m (add_quarantine_call agent_id) e h = ground (arith, h)
  call-Reloads m (remove_quarantine_call agent_id) e h = ground (arith, h)
  call-Reloads m (get_api_key_call env_key hex) e h = ground (arith, h)
  call-Reloads m (save_call w) e h = save-Reloads m w e h
  call-Reloads m (save_if_dirty_call w) e h =
      subst Reloads (sym (save_if_dirty-same m w)) (save_if-Reloads m w e h)
  call-Reloads m (flush_call w) e h = save_if-Reloads m w e h
  call-Reloads m (shutdown_call w) e h = save_if-Reloads m w e h

  calls-Reloads :
      (m : CacheManager B) (cs : List (Call B))
      → All (λ c. replaces c ≡ true) cs
      → Reloads m
      → Reloads (calls m cs)
  unfolding calls
  calls-Reloads m [] e h = h
  calls-Reloads m (c ∷ cs) e h = calls-Reloads (call m c) cs e.1 (call-Reloads m c e.0 h)

  shutdown-state : (m : CacheManager B) → Reloads m → (restart (shutdown m written)).state ≡ m.state
  unfolding shutdown save restart load load_disk load_file snapshot merged init
  shutdown-state m h = elim (Bool-cases m.dirty) [
    | inl is ↦ rw is refl
    | inr isnt ↦ rw isnt (h isnt)
  ]

-- After any calls since a start, with no write that fails once the flag is cleared, a restart finds
-- the state unless the manager knows that it is not saved; and it finds the state after a shutdown
-- whose write goes well.
pub start-Reloads :
    {B : Type 0} (disk : Disk B) (cs : List (Call B))
    → All (λ c. replaces c ≡ true) cs
    → let m = calls (load (init B disk)) cs in
      Reloads m × ((restart (shutdown m written)).state ≡ m.state)
start-Reloads {B} disk cs e = (here, shutdown-state (calls (load (init B disk)) cs) here)
  where
    fresh : Reloads (load (init B disk))
    fresh = unfold restart load init in (λ clean. refl)

    here : Reloads (calls (load (init B disk)) cs)
    here = calls-Reloads (load (init B disk)) cs e fresh

abbrev pub flushes : {B : Type 0} → Call B → Bool
flushes (save_if_dirty_call w) = true
flushes (flush_call w) = true
flushes (shutdown_call w) = true
flushes _ = false

flush-clean :
    {B : Type 0} (m : CacheManager B) (c : Call B)
    → flushes c ≡ true
    → m.dirty ≡ false
    → call m c ≡ m
unfolding call save_if_dirty flush shutdown
flush-clean m (save_if_dirty_call w) e clean = ground (arith, clean)
flush-clean m (flush_call w) e clean = ground (arith, clean)
flush-clean m (shutdown_call w) e clean = ground (arith, clean)
flush-clean m (get_run_id_call hex) e clean = cc
flush-clean m (set_run_id_call run_id) e clean = cc
flush-clean m (set_baseline_call agent_id profile) e clean = cc
flush-clean m (set_quarantine_call agent_ids) e clean = cc
flush-clean m (add_quarantine_call agent_id) e clean = cc
flush-clean m (remove_quarantine_call agent_id) e clean = cc
flush-clean m (get_api_key_call env_key hex) e clean = cc
flush-clean m (save_call w) e clean = cc

flushes-clean :
    {B : Type 0} (m : CacheManager B) (cs : List (Call B))
    → All (λ c. flushes c ≡ true) cs
    → m.dirty ≡ false
    → calls m cs ≡ m
unfolding calls
flushes-clean m [] e clean = refl
flushes-clean m (c ∷ cs) e clean =
    let same = flush-clean m c e.0 clean in
    subst (λ n. calls n cs ≡ m) (sym same) (flushes-clean m cs e.1 clean)

-- After a save whose write fails once the flag is cleared, which raises, no later flush, shutdown or
-- save of unsaved changes writes anything, however its write would end: the disk stays as it was
-- before that save, until the state is changed again.
pub save-not_replaced :
    {B : Type 0} (m : CacheManager B) (cs : List (Call B))
    → All (λ c. flushes c ≡ true) cs
    → let m' = calls (save m not_replaced).0 cs in
      ((save m not_replaced).1 ≡ raise os_error) × (m'.disk ≡ m.disk) × (m'.state ≡ m.state)
unfolding save
save-not_replaced m cs e =
    let same = flushes-clean (save m not_replaced).0 cs e refl in
    (refl, ap (λ n. n.disk) same, ap (λ n. n.state) same)
