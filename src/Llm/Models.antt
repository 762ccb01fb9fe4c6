-- ===== src/Llm/Models.antt =====
-- The keys, the models that are listed, and the names of models.
use ioswarm.Common.{
  ℕ, Option, none, some, List, [], ◌∷◌, ◌++◌, Bytes, codes, bytes_eq, Bool, not, ◌==◌, leb,
  if◌then◌else◌, length, take,
}
use ioswarm.Common.Text.{has_prefix, trim_prefix}

-- The three keys, each empty where there is none.
pub record Keys : Type 0 where
  pub claude : Bytes
  pub gemini : Bytes
  pub openai : Bytes

abbrev pub token_or_empty : Option Bytes → Bytes
token_or_empty none = []
token_or_empty (some token) = token

-- getClaudeKey: the variable, or else the access token that `llm setup` has saved.
unfoldable pub get_claude_key : (Bytes → Bytes) → Option Bytes → Bytes
get_claude_key getenv token =
    let key = getenv (codes "ANTHROPIC_API_KEY") in
    if length key == 0 then token_or_empty token else key

unfoldable pub keys_of : (Bytes → Bytes) → Option Bytes → Keys
unfolding get_claude_key
keys_of getenv token = record {
  claude = get_claude_key getenv token;
  gemini = getenv (codes "GEMINI_API_KEY");
  openai = getenv (codes "OPENAI_API_KEY");
}

abbrev pub if_key : Bytes → List Bytes → List Bytes
if_key key models = if not (length key == 0) then models else []

unfoldable pub detect_models : Keys → List Bytes
detect_models keys =
    if_key keys.claude
      (codes "claude-opus-4.6" ∷ codes "claude-sonnet-4.6" ∷ codes "claude-haiku-4.5" ∷ [])
    ++ (if_key keys.gemini (codes "gemini-2.0-flash" ∷ codes "gemini-1.5-flash" ∷ [])
        ++ if_key keys.openai (codes "gpt-4o" ∷ []))

-- anthropicModelMap, which leaves a name that it does not have.
unfoldable pub real_model : Bytes → Bytes
real_model model =
    if bytes_eq model (codes "claude-opus-4.6")
    then codes "claude-opus-4-20250514"
    else if bytes_eq model (codes "claude-sonnet-4.6")
    then codes "claude-sonnet-4-20250514"
    else if bytes_eq model (codes "claude-haiku-4.5")
    then codes "claude-haiku-4-5-20251001"
    else model

unfoldable pub is_oauth_token : Bytes → Bool
is_oauth_token key = not (has_prefix key (codes "sk-ant-api"))

unfoldable pub truncate : Bytes → ℕ → Bytes
truncate s n = if leb (length s) n then s else take n s

unfoldable pub trim_prefixes : List Bytes → Bytes → Bytes
unfolding trim_prefix
trim_prefixes [] model = model
trim_prefixes (prefix ∷ prefixes) model = trim_prefixes prefixes (trim_prefix model prefix)

-- The model's name without the vendor before it.
unfoldable pub bare_model : Bytes → Bytes
unfolding trim_prefixes
bare_model model =
    trim_prefixes (codes "clawhive/" ∷ codes "google/" ∷ codes "anthropic/" ∷ codes "openai/" ∷ [])
      model
