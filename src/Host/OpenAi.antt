-- ===== src/Host/OpenAi.antt =====
-- crates/lluma-host/src/openai.rs: a model behind an OpenAI-compatible endpoint. The texts are bytes,
-- and serde_json a parameter.
use lluma.Common.{ℕ, Bool, Option, ◌++◌, Bytes, codes, trim_end, Result, ok_or, ensure, ◌>>=◌, ◌>>◌}
use lluma.Gateway.{from_utf8}
use lluma.Net.Agent.{is_success}
use lluma.Host.{UpstreamError, transport, status, decode, bad_prompt, encode}

pub record OpenAiUpstream : Type 0 where
  pub base_url : Bytes
  pub model : Bytes
  pub api_key : Bytes

-- The text of a chat with one message, and the field `choices[0].message.content` of an answer,
-- where the answer parses and has it.
pub record ChatJson : Type 0 where
  pub chat : Bytes → Bytes → Option Bytes
  pub parses : Bytes → Bool
  pub content : Bytes → Option Bytes

-- A POST to a URL with an authorization and a body: the status, and the body where it arrives.
abbrev pub ChatPost : Type 0
ChatPost = Bytes → Bytes → Bytes → Option (ℕ × Option Bytes)

unfoldable pub new : Bytes → Bytes → Bytes → OpenAiUpstream
new base_url model api_key = record {
  base_url = trim_end b'/' base_url;
  model = model;
  api_key = api_key;
}

unfoldable pub complete : ChatJson → ChatPost → OpenAiUpstream → Bytes → Result UpstreamError Bytes
complete json post up prompt = do
  prompt_str ← ok_or (from_utf8 prompt) bad_prompt
  bytes ← ok_or (json.chat up.model prompt_str) encode
  resp ←
      ok_or (post (up.base_url ++ codes "/chat/completions") (codes "Bearer " ++ up.api_key) bytes)
        transport
  ensure (is_success resp.0) status
  rb ← ok_or resp.1 transport
  ensure (json.parses rb) decode
  ok_or (json.content rb) decode
