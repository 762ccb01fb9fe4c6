-- ===== src/Llm/Listed.antt =====
-- Every model that is listed can be asked for, and each key goes to its own service.
use mathlib.Core.Path.{subst⁻¹}
use ioswarm.Common.{
  ◌<◌, ◌≡◌, refl, Option, none, some, List, [], ◌∷◌, ◌++◌, Bytes, codes, bytes_eq, Bool, true,
  false, not, ◌==◌, if◌then◌else◌, if_elim, length, All, arith,
}
use ioswarm.Common.Text.{has_prefix, trim_prefix}
use ioswarm.Llm.Models.{Keys, if_key, detect_models, is_oauth_token, trim_prefixes, bare_model}
use ioswarm.Llm.Calls.{
  LlmMessage, Authorisation, bearer, x_api_key, ProviderRequest, to_anthropic, to_gemini, to_openai,
  anthropic_request, gemini_request, routed,
}

abbrev pub key_in : Authorisation → Bytes
key_in (bearer key) = key
key_in (x_api_key key) = key

-- The request of a model goes to the service of the model's name, with the key for it.
abbrev pub IsOwn : Keys → Bytes → ProviderRequest → Type 0
IsOwn keys model (to_anthropic auth name max_tokens system messages) =
    (key_in auth ≡ keys.claude)
    × (0 < length keys.claude)
    × (has_prefix model (codes "claude") ≡ true)
IsOwn keys model (to_gemini key name contents) =
    (key ≡ keys.gemini) × (0 < length keys.gemini) × (has_prefix model (codes "gemini") ≡ true)
IsOwn keys model (to_openai key name messages) =
    (key ≡ keys.openai) × (0 < length keys.openai) × (has_prefix model (codes "gpt") ≡ true)

abbrev pub IsRouted : Keys → Bytes → Option ProviderRequest → Type 0
IsRouted keys model none = ⊥
IsRouted keys model (some req) = IsOwn keys model req

-- The names that may stand before a model's, one of them empty.
abbrev pub vendors : List Bytes
vendors = [] ∷ codes "clawhive/" ∷ codes "google/" ∷ codes "anthropic/" ∷ codes "openai/" ∷ []

there : (key : Bytes) → not (length key == 0) ≡ true → 0 < length key
there key h = ground arith

to_claude :
    (keys : Keys) (model : Bytes) (messages : List LlmMessage)
    → has_prefix model (codes "claude") ≡ true
    → not (length keys.claude == 0) ≡ true
    → IsRouted keys model (routed keys model messages)
unfolding routed anthropic_request
to_claude keys model messages named h =
    rw (routed, named, h) (in_header (is_oauth_token keys.claude), there keys.claude h, named)
  where
    in_header :
        (oauth : Bool)
        → key_in (if oauth then bearer keys.claude else x_api_key keys.claude) ≡ keys.claude
    in_header true = refl
    in_header false = refl

to_google :
    (keys : Keys) (model : Bytes) (messages : List LlmMessage)
    → has_prefix model (codes "claude") ≡ false
    → has_prefix model (codes "gemini") ≡ true
    → not (length keys.gemini == 0) ≡ true
    → IsRouted keys model (routed keys model messages)
unfolding routed gemini_request
to_google keys model messages other named h =
    rw (routed, other, named, h) (refl, there keys.gemini h, named)

to_gpt :
    (keys : Keys) (model : Bytes) (messages : List LlmMessage)
    → has_prefix model (codes "claude") ≡ false
    → has_prefix model (codes "gemini") ≡ false
    → has_prefix model (codes "gpt") ≡ true
    → not (length keys.openai == 0) ≡ true
    → IsRouted keys model (routed keys model messages)
unfolding routed
to_gpt keys model messages other another named h =
    rw (routed, other, another, named, h) (refl, there keys.openai h, named)

under_vendors :
    (P : Bytes → Type 0) (model : Bytes) (vs : List Bytes)
    → All (λ v. bare_model (v ++ model) ≡ model) vs
    → P model
    → All (λ v. P (bare_model (v ++ model))) vs
under_vendors P model [] bare p = tt
under_vendors P model (v ∷ vs) (bare, bares) p =
    (subst⁻¹ P bare p, under_vendors P model vs bares p)

All-append : (P : Bytes → Type 0) (xs ys : List Bytes) → All P xs → All P ys → All P (xs ++ ys)
All-append P [] ys ps qs = qs
All-append P (x ∷ xs) ys (p, ps) qs = (p, All-append P xs ys ps qs)

abbrev pub IsServed : Keys → List LlmMessage → Bytes → Type 0
IsServed keys messages model =
    All
      (λ v.
        IsRouted keys (bare_model (v ++ model)) (routed keys (bare_model (v ++ model)) messages))
      vendors

-- For whatever keys there are, a chat with a model that is listed makes a request, whether the
-- name of a vendor that is known stands before the model's or not, and the request goes to the
-- service that the model's name begins with, with the key for that service, which is not empty.
pub detect_models_routed :
    (keys : Keys) (messages : List LlmMessage) → All (IsServed keys messages) (detect_models keys)
unfolding detect_models bare_model trim_prefixes trim_prefix has_prefix bytes_eq
detect_models_routed keys messages =
    let P = IsServed keys messages in
    let Q = λ (model : Bytes). IsRouted keys model (routed keys model messages) in
    All-append P (if_key keys.claude _) _
      (if_elim (All P) (not (length keys.claude == 0))
        (λ h. (
          under_vendors Q (codes "claude-opus-4.6") vendors
              (refl, (refl, (refl, (refl, (refl, tt))))) (to_claude keys _ messages refl h),
          (
            under_vendors Q (codes "claude-sonnet-4.6") vendors
                (refl, (refl, (refl, (refl, (refl, tt))))) (to_claude keys _ messages refl h),
            (
              under_vendors Q (codes "claude-haiku-4.5") vendors
                  (refl, (refl, (refl, (refl, (refl, tt))))) (to_claude keys _ messages refl h),
              tt,
            ),
          ),
        ))
        (λ h. tt))
      (All-append P (if_key keys.gemini _) _
        (if_elim (All P) (not (length keys.gemini == 0))
          (λ h. (
            under_vendors Q (codes "gemini-2.0-flash") vendors
                (refl, (refl, (refl, (refl, (refl, tt))))) (to_google keys _ messages refl refl h),
            (
              under_vendors Q (codes "gemini-1.5-flash") vendors
                  (refl, (refl, (refl, (refl, (refl, tt)))))
                  (to_google keys _ messages refl refl h),
              tt,
            ),
          ))
          (λ h. tt))
        (if_elim (All P) (not (length keys.openai == 0))
          (λ h. (
            under_vendors Q (codes "gpt-4o") vendors (refl, (refl, (refl, (refl, (refl, tt)))))
                (to_gpt keys _ messages refl refl refl h),
            tt,
          ))
          (λ h. tt)))
