-- ===== src/Fingerprint/Stability.antt =====
-- When two requests get the same name (gateway/fingerprint.py).
use ai_agent_immune_system.Common.{String, Texts, arith, truthy, ◌≡◌, ◌≢◌, ◌⊎◌}
use ai_agent_immune_system.Fingerprint.{Headers, credential_of, header, identify}

module _ (py : Texts) where
  -- Two requests are given the same name, wherever they come from and whatever client sends them, if
  -- they name the same agent, or if neither names one and both carry the same credential.
  pub identify_stable :
      (h h' : Headers) (addr addr' : String)
      → py.strip (header h "X-Agent-ID") ≡ py.strip (header h' "X-Agent-ID")
      → (py.strip (header h "X-Agent-ID") ≢ "")
        ⊎ ((credential_of py h ≡ credential_of py h') × (credential_of py h ≢ ""))
      → identify py h addr ≡ identify py h' addr'
  unfolding identify truthy
  identify_stable h h' addr addr' same known = ground (arith, same, known)
