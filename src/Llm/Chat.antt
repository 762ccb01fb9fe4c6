-- ===== src/Llm/Chat.antt =====
-- handleLLMChat and handleLLMModels.
use ioswarm.Common.{
  ℕ, ◌+◌, ◌/◌, Option, none, some, List, [], ◌∷◌, Bytes, codes, bytes_eq, if◌then◌else◌, length,
  Result, ok, err, not,
}
use ioswarm.Llm.Models.{Keys, bare_model}
use ioswarm.Llm.Calls.{LlmMessage, LlmError, Services, route_llm}

pub record LlmRequest : Type 0 where
  pub model : Bytes
  pub messages : List LlmMessage

pub record LlmUsage : Type 0 where
  pub prompt_tokens : ℕ
  pub completion_tokens : ℕ
  pub total_tokens : ℕ

-- The time in the id of a response is left out.
pub record LlmResponse : Type 0 where
  pub model : Bytes
  pub choice : LlmMessage
  pub usage : LlmUsage

-- The answers to a chat, with the statuses 405, 400, 502 and 200.
pub data ChatAnswer : Type 0 where
  post_only invalid_json : ChatAnswer
  bad_gateway : LlmError → ChatAnswer
  completion : LlmResponse → ChatAnswer

unfoldable pub prompt_tokens_of : List LlmMessage → ℕ
prompt_tokens_of [] = 0
prompt_tokens_of (m ∷ messages) = length m.content / 4 + prompt_tokens_of messages

unfoldable pub response_of : Bytes → List LlmMessage → Result LlmError Bytes → ChatAnswer
unfolding prompt_tokens_of
response_of model messages (err e) = bad_gateway e
response_of model messages (ok text) = completion (record {
  model = model;
  choice = record { role = codes "assistant"; content = text };
  usage = record {
    prompt_tokens = prompt_tokens_of messages;
    completion_tokens = length text / 4;
    total_tokens = prompt_tokens_of messages + length text / 4;
  };
})

unfoldable pub answer_chat : Services → Keys → Option LlmRequest → ChatAnswer
unfolding bare_model route_llm response_of
answer_chat sv keys none = invalid_json
answer_chat sv keys (some req) =
    let model = bare_model req.model in
    response_of model req.messages (route_llm sv keys model req.messages)

-- `body` is the request that encoding/json reads, or none for its error.
unfoldable pub handle_llm_chat : Services → Keys → Bytes → Option LlmRequest → ChatAnswer
unfolding answer_chat
handle_llm_chat sv keys method body =
    if not (bytes_eq method (codes "POST")) then post_only else answer_chat sv keys body
