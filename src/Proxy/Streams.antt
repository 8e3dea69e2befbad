-- ===== src/Proxy/Streams.antt =====
-- What closing a stream leaves behind (gateway/proxy.py, `forward_stream`).
use ai_agent_immune_system.Common.{
  Bool, Floats, List, Result, String, Texts, arith, exists, if◌then◌else◌, is_ok, ok, raise, ℕ, ◌+◌,
  ◌≡◌,
}
use ai_agent_immune_system.Policy.{record_usage, window_seconds}
use ai_agent_immune_system.Policy.Windows.{in_window, in_window-record_amount}
use ai_agent_immune_system.Telemetry.{VitalsDict}
use ai_agent_immune_system.Vitals.{Chunk, extract_vitals_from_stream_chunks}
use ai_agent_immune_system.Vitals.Stream.{
  gives_usage, has_null, is_ok-extract_vitals_from_stream_chunks,
}
use ai_agent_immune_system.Proxy.{
  LlmProxy, Network, OpenStream, close_stream, close_with, emit, in_success,
}

module _ {fl : Floats} {W : Type 0} (fnmatch : String → String → Bool) (py : Texts)
    (net : Network) where
  close_with-counts :
      (p : LlmProxy fl W) (i : String) (now : ℕ) (vitals : Result (VitalsDict fl))
      → in_window
          (close_with fnmatch py net p i now vitals).0.policy.req_counter
          i
          window_seconds
          now
        ≡ in_window p.policy.req_counter i window_seconds now + (if is_ok vitals then 1 else 0)
  unfolding close_with record_usage emit
  close_with-counts p i now (raise e) = omega arith
  close_with-counts p i now (ok v) =
      ground (arith, in_window-record_amount p.policy.req_counter i i 1 now window_seconds now)

  -- A stream that is closed counts as one request of its agent, for the rate limit, exactly where a
  -- chunk gave the usage or no delta had a content that is null: else the stream is not counted.
  pub close_stream-counts :
      (p : LlmProxy fl W) (s : OpenStream) (chunks : List Chunk) (latency_ms now : ℕ)
      → in_window
          (close_stream fnmatch py net p s chunks latency_ms now).0.policy.req_counter
          s.agent_id
          window_seconds
          now
        ≡ in_window p.policy.req_counter s.agent_id window_seconds now
          + (if exists gives_usage chunks then 1 else if exists has_null chunks then 0 else 1)
  unfolding close_stream
  close_stream-counts p s chunks latency_ms now =
      let vitals =
        extract_vitals_from_stream_chunks fl py s.request chunks latency_ms s.agent_id s.agent_type
          (in_success s.status_code) "" now in
      ground (
        arith,
        close_with-counts p s.agent_id now vitals,
        is_ok-extract_vitals_from_stream_chunks fl py s.request chunks latency_ms s.agent_id
            s.agent_type (in_success s.status_code) "" now,
      )
