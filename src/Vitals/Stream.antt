-- ===== src/Vitals/Stream.antt =====
-- When the vitals of a stream can be had (gateway/vitals_extractor.py).
use ai_agent_immune_system.Common.{
  Bool, Floats, List, Option, String, Texts, [], arith, exists, false, if◌then◌else◌, is_ok,
  is_some, none, not, refl, some, some_or, true, ℕ, ◌∷◌, ◌≡◌,
}
use ai_agent_immune_system.Vitals.{
  Chunk, Collected, Delta, RequestBody, Usage, all_content_chars, collect_chunk, collect_chunks,
  content_chars, content_length, extract_vitals_from_stream_chunks, null_content, output_tokens_of,
}

abbrev pub gives_usage : Chunk → Bool
gives_usage ch = is_some ch.usage

abbrev pub is_null : Delta → Bool
is_null d = elim d.content [ null_content ↦ true | _ ↦ false ]

abbrev pub has_null : Chunk → Bool
has_null ch = exists is_null ch.choices

collect_chunks-usage :
    (c : Collected) (chs : List Chunk)
    → is_some (collect_chunks c chs).usage
      ≡ (if is_some c.usage then true else exists gives_usage chs)
unfolding collect_chunks collect_chunk
collect_chunks-usage c [] = ground arith
collect_chunks-usage c (ch ∷ chs) = ground (arith, collect_chunks-usage (collect_chunk c ch) chs)

is_ok-content_chars : (ds : List Delta) → is_ok (content_chars ds) ≡ not (exists is_null ds)
unfolding content_chars content_length
is_ok-content_chars [] = refl
is_ok-content_chars (d ∷ ds) = ground (arith, is_ok-content_chars ds)

is_ok-all_content_chars :
    (chs : List Chunk) → is_ok (all_content_chars chs) ≡ not (exists has_null chs)
unfolding all_content_chars
is_ok-all_content_chars [] = refl
is_ok-all_content_chars (ch ∷ chs) =
    ground (arith, is_ok-content_chars ch.choices, is_ok-all_content_chars chs)

is_ok-output_tokens_of :
    (u : Option Usage) (chs : List Chunk)
    → is_ok (output_tokens_of u chs) ≡ (if is_some u then true else not (exists has_null chs))
unfolding output_tokens_of
is_ok-output_tokens_of none chs = ground (arith, is_ok-all_content_chars chs)
is_ok-output_tokens_of (some u) chs = refl

module _ (fl : Floats) (py : Texts) where
  -- The vitals of a stream can be had exactly where a chunk gives the usage, or else no delta has a
  -- content that is null; where they cannot, the extraction raises.
  pub is_ok-extract_vitals_from_stream_chunks :
      (request : RequestBody) (chunks : List Chunk) (latency_ms : ℕ) (agent_id agent_type : String)
      (success : Bool) (error_type : String) (now : ℕ)
      → is_ok (
          extract_vitals_from_stream_chunks fl py request chunks latency_ms agent_id agent_type
            success error_type now)
        ≡ (if exists gives_usage chunks then true else not (exists has_null chunks))
  unfolding extract_vitals_from_stream_chunks
  is_ok-extract_vitals_from_stream_chunks request chunks latency_ms agent_id agent_type success
        error_type now =
      let start : Collected = record {
        model = some_or request.model "unknown";
        usage = none;
        tool_call_count = 0;
      } in
      let u = (collect_chunks start chunks).usage in
      ground (arith, collect_chunks-usage start chunks, is_ok-output_tokens_of u chunks)
