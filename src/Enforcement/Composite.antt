-- ===== src/Enforcement/Composite.antt =====
-- `CompositeEnforcement` (immune_system/enforcement.py): a chain of strategies over one shared state.
use ai_agent_immune_system.Common.{
  Bool, List, String, [], arith, false, if◌then◌else◌, map, not, refl, true, ℕ, ◌&&◌, ◌++◌, ◌∷◌,
  ◌≡◌,
}
use ai_agent_immune_system.Enforcement.{EnforcementResult, EnforcementStrategy, result, text}

abbrev pub all_failed : String → String → EnforcementResult
all_failed agent_id action = result false "composite" agent_id action (text "all_strategies_failed")

module _ {W : Type 0} where
  -- The loop that `block`, `unblock` and `drain` share: each operation is tried on the state that
  -- the one before left, until one succeeds.
  unfoldable pub first_success :
      List (W → W × EnforcementResult) → EnforcementResult → W → W × EnforcementResult
  first_success [] failed w = (w, failed)
  first_success (operation ∷ operations) failed w =
      let (w', r) = operation w in
      let rest = first_success operations failed w' in if r.success then (w', r) else rest

  unfoldable pub block : List (EnforcementStrategy W) → W → String → String → W × EnforcementResult
  block strategies w agent_id reason =
      first_success (map (λ s. λ w'. s.block w' agent_id reason) strategies)
        (all_failed agent_id "block") w

  unfoldable pub unblock : List (EnforcementStrategy W) → W → String → W × EnforcementResult
  unblock strategies w agent_id =
      first_success (map (λ s. λ w'. s.unblock w' agent_id) strategies)
        (all_failed agent_id "unblock") w

  unfoldable pub drain : List (EnforcementStrategy W) → W → String → ℕ → W × EnforcementResult
  drain strategies w agent_id timeout_s =
      first_success (map (λ s. λ w'. s.drain w' agent_id timeout_s) strategies)
        (all_failed agent_id "drain") w

  unfoldable pub composite_strategy : List (EnforcementStrategy W) → EnforcementStrategy W
  composite_strategy strategies = record {
    name = "composite";
    block = block strategies;
    unblock = unblock strategies;
    drain = drain strategies;
  }

  -- The state after operations that are all tried in turn.
  unfoldable pub try_all : List (W → W × EnforcementResult) → W → W
  try_all [] w = w
  try_all (operation ∷ operations) w = try_all operations (operation w).0

  -- Whether each operation fails on the state that the one before left.
  unfoldable pub all_fail : List (W → W × EnforcementResult) → W → Bool
  all_fail [] w = true
  all_fail (operation ∷ operations) w =
      not (operation w).1.success && all_fail operations (operation w).0

  first_success_lem :
      (tried rest : List (W → W × EnforcementResult)) (operation : W → W × EnforcementResult)
      (failed : EnforcementResult) (w : W)
      → all_fail tried w ≡ true
      → (operation (try_all tried w)).1.success ≡ true
      → first_success (tried ++ operation ∷ rest) failed w ≡ operation (try_all tried w)
  unfolding first_success all_fail try_all
  first_success_lem [] rest operation failed w h k = ground arith
  first_success_lem (o ∷ tried) rest operation failed w h k =
      ground (arith, first_success_lem tried rest operation failed (o w).0)

  first_success-none :
      (operations : List (W → W × EnforcementResult)) (failed : EnforcementResult) (w : W)
      → all_fail operations w ≡ true
      → first_success operations failed w ≡ (try_all operations w, failed)
  unfolding first_success all_fail try_all
  first_success-none [] failed w h = refl
  first_success-none (o ∷ operations) failed w h =
      ground (arith, first_success-none operations failed (o w).0)

  abbrev pub blocks :
      List (EnforcementStrategy W) → String → String → List (W → W × EnforcementResult)
  blocks strategies agent_id reason = map (λ s. λ w'. s.block w' agent_id reason) strategies

  map-blocks_append :
      (xs ys : List (EnforcementStrategy W)) (agent_id reason : String)
      → blocks (xs ++ ys) agent_id reason ≡ blocks xs agent_id reason ++ blocks ys agent_id reason
  map-blocks_append [] ys agent_id reason = refl
  map-blocks_append (x ∷ xs) ys agent_id reason = rw (map-blocks_append xs ys agent_id reason)

  -- A chain answers with the first strategy that succeeds: those before it are tried in order, each
  -- on the state that the one before left, and none behind it is tried.
  pub block_first :
      (tried rest : List (EnforcementStrategy W)) (s : EnforcementStrategy W) (w : W)
      (agent_id reason : String)
      → all_fail (blocks tried agent_id reason) w ≡ true
      → (s.block (try_all (blocks tried agent_id reason) w) agent_id reason).1.success ≡ true
      → block (tried ++ s ∷ rest) w agent_id reason
        ≡ s.block (try_all (blocks tried agent_id reason) w) agent_id reason
  unfolding block
  block_first tried rest s w agent_id reason h k =
      rw (map-blocks_append tried (s ∷ rest) agent_id reason) (
        first_success_lem (blocks tried agent_id reason) (blocks rest agent_id reason)
          (λ w'. s.block w' agent_id reason) (all_failed agent_id "block") w h k)

  -- A chain in which every strategy fails has tried them all, and reports a failure of its own.
  pub block_none :
      (strategies : List (EnforcementStrategy W)) (w : W) (agent_id reason : String)
      → all_fail (blocks strategies agent_id reason) w ≡ true
      → block strategies w agent_id reason
        ≡ (try_all (blocks strategies agent_id reason) w, all_failed agent_id "block")
  unfolding block
  block_none strategies w agent_id reason h =
      first_success-none (blocks strategies agent_id reason) (all_failed agent_id "block") w h
