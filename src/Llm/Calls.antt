-- ===== src/Llm/Calls.antt =====
-- callAnthropic, callGemini, callOpenAI and routeLLM.
use ioswarm.Common.{
  ℕ, Option, none, some, List, [], ◌∷◌, Bytes, codes, bytes_eq, ◌&&◌, ◌||◌, not, ◌==◌,
  if◌then◌else◌, length, map, Result, ok, err,
}
use ioswarm.Common.Text.{has_prefix}
use ioswarm.Llm.Models.{Keys, real_model, is_oauth_token, truncate}

pub record LlmMessage : Type 0 where
  pub role : Bytes
  pub content : Bytes

-- The header that the key is sent in.
pub data Authorisation : Type 0 where
  bearer x_api_key : Bytes → Authorisation

-- What is posted to each of the three services.
pub data ProviderRequest : Type 0 where
  to_anthropic : Authorisation → Bytes → ℕ → Bytes → List LlmMessage → ProviderRequest
  to_gemini : Bytes → Bytes → List LlmMessage → ProviderRequest
  to_openai : Bytes → Bytes → List LlmMessage → ProviderRequest

pub data LlmError : Type 0 where
  no_key_configured : Bytes → LlmError
  request_failed parse_failed empty_response : LlmError
  bad_status : ℕ → Bytes → LlmError

-- The services, as functions: no answer, or a status and a body; and the texts that encoding/json
-- finds in a body of each of them, or none for its error. A candidate of Gemini has several.
pub record Services : Type 0 where
  pub post : ProviderRequest → Option (ℕ × Bytes)
  pub anthropic_texts : Bytes → Option (List Bytes)
  pub gemini_texts : Bytes → Option (List (List Bytes))
  pub openai_texts : Bytes → Option (List Bytes)

-- The system message that counts is the last one.
unfoldable pub system_of : Bytes → List LlmMessage → Bytes
system_of system [] = system
system_of system (m ∷ messages) =
    system_of (if bytes_eq m.role (codes "system") then m.content else system) messages

unfoldable pub without_system : List LlmMessage → List LlmMessage
without_system [] = []
without_system (m ∷ messages) =
    let rest = without_system messages in
    if bytes_eq m.role (codes "system") then rest else m ∷ rest

unfoldable pub gemini_role : LlmMessage → LlmMessage
gemini_role m = record m {
  role =
      if bytes_eq m.role (codes "assistant") || bytes_eq m.role (codes "model")
      then codes "model"
      else codes "user";
}

unfoldable pub anthropic_request : Bytes → Bytes → List LlmMessage → ProviderRequest
unfolding real_model is_oauth_token system_of without_system
anthropic_request key model messages =
    to_anthropic (if is_oauth_token key then bearer key else x_api_key key) (real_model model) 4096
      (system_of [] messages) (without_system messages)

unfoldable pub gemini_request : Bytes → Bytes → List LlmMessage → ProviderRequest
unfolding gemini_role
gemini_request key model messages = to_gemini key model (map gemini_role messages)

abbrev pub first_text : Option (List Bytes) → Result LlmError Bytes
first_text none = err parse_failed
first_text (some []) = err empty_response
first_text (some (text ∷ texts)) = ok text

abbrev pub first_part : Option (List (List Bytes)) → Result LlmError Bytes
first_part none = err parse_failed
first_part (some []) = err empty_response
first_part (some ([] ∷ candidates)) = err empty_response
first_part (some ((text ∷ parts) ∷ candidates)) = ok text

-- A status other than 200 is reported with the body's first 200 bytes.
unfoldable pub answer_of :
    (Bytes → Result LlmError Bytes) → Option (ℕ × Bytes) → Result LlmError Bytes
unfolding truncate
answer_of parse none = err request_failed
answer_of parse (some (status, body)) =
    if status == 200 then parse body else err (bad_status status (truncate body 200))

-- The request that a chat makes, if it makes one.
unfoldable pub routed : Keys → Bytes → List LlmMessage → Option ProviderRequest
unfolding anthropic_request gemini_request
routed keys model messages =
    if has_prefix model (codes "claude") && not (length keys.claude == 0)
    then some (anthropic_request keys.claude model messages)
    else if has_prefix model (codes "gemini") && not (length keys.gemini == 0)
    then some (gemini_request keys.gemini model messages)
    else if has_prefix model (codes "gpt") && not (length keys.openai == 0)
    then some (to_openai keys.openai model messages)
    else none

unfoldable pub call : Services → ProviderRequest → Result LlmError Bytes
unfolding answer_of
call sv (to_anthropic auth model max_tokens system messages) =
    answer_of (λ body. first_text (sv.anthropic_texts body))
      (sv.post (to_anthropic auth model max_tokens system messages))
call sv (to_gemini key model contents) =
    answer_of (λ body. first_part (sv.gemini_texts body)) (sv.post (to_gemini key model contents))
call sv (to_openai key model messages) =
    answer_of (λ body. first_text (sv.openai_texts body)) (sv.post (to_openai key model messages))

unfoldable pub called : Services → Bytes → Option ProviderRequest → Result LlmError Bytes
unfolding call
called sv model none = err (no_key_configured model)
called sv model (some req) = call sv req

unfoldable pub route_llm : Services → Keys → Bytes → List LlmMessage → Result LlmError Bytes
unfolding routed called
route_llm sv keys model messages = called sv model (routed keys model messages)
