-- ===== src/Fingerprint.antt =====
-- The name and the type that the gateway gives the sender of a request (gateway/fingerprint.py).
pub mod Stability
use ai_agent_immune_system.Common.{
  String, String-discrete, Texts, append_text, if◌then◌else◌, or_text, truthy, ◌||◌,
}
use ai_agent_immune_system.Common.Dict
use ai_agent_immune_system.Common.Dict.{Dict}

-- The headers of a request, by name.
abbrev pub Headers : Type 0
Headers = Dict String String

-- `headers.get(name) or ""`
unfoldable pub header : Headers → String → String
header headers name = Dict.get_or String-discrete name headers ""

module _ (py : Texts) where
  -- `_hash` of one text, and of two, which are joined by a bar
  unfoldable pub hash_one : String → String
  hash_one part = py.sha256 12 part

  unfoldable pub hash_two : String → String → String
  hash_two part part' = py.sha256 12 (append_text part (append_text "|" part'))

  unfoldable pub credential_of : Headers → String
  credential_of headers =
      or_text (py.strip (header headers "Authorization"))
        (py.strip (or_text (header headers "X-API-Key") (header headers "Api-Key")))

  unfoldable pub anonymous : Headers → String → String
  anonymous headers remote_addr =
      let user_agent = py.strip (or_text (header headers "User-Agent") "unknown") in
      let ip = py.strip (or_text remote_addr "0.0.0.0") in
      append_text "anon-" (hash_two ip user_agent)

  unfoldable pub identify : Headers → String → String
  identify headers remote_addr =
      let explicit = py.strip (header headers "X-Agent-ID") in
      let credential = credential_of headers in
      if truthy explicit
      then explicit
      else if truthy credential
      then append_text "key-" (hash_one credential)
      else anonymous headers remote_addr

  -- `derive_agent_type`, which does not read the name
  unfoldable pub derive_agent_type : Headers → String
  derive_agent_type headers =
      let explicit = py.strip (header headers "X-Agent-Type") in
      let ua = py.lower (header headers "User-Agent") in
      if truthy explicit
      then explicit
      else if py.is_in "langchain" ua
      then "LangChain"
      else if py.is_in "crewai" ua
      then "CrewAI"
      else if py.is_in "autogen" ua
      then "AutoGen"
      else if py.is_in "llamaindex" ua || py.is_in "llama-index" ua
      then "LlamaIndex"
      else "external"
