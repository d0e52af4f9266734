-- ===== src/Llm.antt =====
-- backend/app/modules/llm: the factory, the Gemini provider over its client, and the fake provider. The
-- client library is a parameter; `lower` and `repr` are Python's.
use research_assistant.Base.{
  ℕ, String, Option, none, some, List, [], ◌∷◌, ◌++◌, map, keep_if, not, ◌==◌, string_eq,
  if◌then◌else◌, Dict, get,
}
use research_assistant.Base.Text.{◌<>◌, strip, join}
use research_assistant.Core.Errors.{Result, ok, err, other, raise_insight, configuration, ◌>>=◌}
use research_assistant.Core.Config.{Settings}
use research_assistant.Core.Float.{Float}
use research_assistant.Agent.Planner.{LlmMessage}

pub record LlmResponse : Type 0 where
  pub content : String
  pub model : String
  pub usage : Dict String ℕ

-- The usage and the text of the client's response, which may be absent.
pub record UsageMetadata : Type 0 where
  pub prompt_token_count : Option ℕ
  pub candidates_token_count : Option ℕ
  pub total_token_count : Option ℕ

pub record GenerateResponse : Type 0 where
  pub text : Option String
  pub usage_metadata : Option UsageMetadata

-- One request to the client: `contents` holds a role and a text for each message.
pub record GenerateRequest : Type 0 where
  pub model : String
  pub contents : List (String × String)
  pub system_instruction : Option String
  pub max_output_tokens : Option ℕ
  pub temperature : Option Float

abbrev pub GenaiClient : Type 0
GenaiClient = GenerateRequest → Result GenerateResponse

pub record GeminiProvider : Type 0 where
  pub model : String
  pub api_key : String

-- `GeminiProvider.__init__`
unfoldable pub new_gemini : (api_key : Option String) (model : String) → Result GeminiProvider
unfolding raise_insight
new_gemini none model = err (
    raise_insight configuration
      "GEMINI_API_KEY is not configured; set it before enabling the Gemini provider")
new_gemini (some api_key) model =
    if api_key == ""
    then err (
        raise_insight configuration
          "GEMINI_API_KEY is not configured; set it before enabling the Gemini provider")
    else ok (record { model = model; api_key = api_key })

-- The content of the first message with the role "system".
unfoldable pub system_of : List LlmMessage → Option String
system_of [] = none
system_of (m ∷ messages) =
    let rest = system_of messages in if m.role == "system" then some m.content else rest

unfoldable pub contents_of : List LlmMessage → List (String × String)
unfolding keep_if
contents_of messages =
    map (λ m. ((if m.role == "assistant" then "model" else "user"), m.content))
      (keep_if (λ m. not (m.role == "system")) messages)

abbrev count_of : Option ℕ → ℕ
count_of none = 0
count_of (some n) = n

-- The dict of the usage.
unfoldable pub usage_of : Option UsageMetadata → Dict String ℕ
usage_of none = ("prompt_tokens", 0) ∷ ("completion_tokens", 0) ∷ ("total_tokens", 0) ∷ []
usage_of (some usage) =
    ("prompt_tokens", count_of usage.prompt_token_count)
    ∷ ("completion_tokens", count_of usage.candidates_token_count)
    ∷ ("total_tokens", count_of usage.total_token_count)
    ∷ []

abbrev text_or_empty : Option String → String
text_or_empty none = ""
text_or_empty (some s) = s

-- `GeminiProvider.complete`, with the client of the provider's key.
unfoldable pub complete :
    (client : String → GenaiClient)
    → GeminiProvider
    → List LlmMessage
    → (max_tokens : Option ℕ) → (temperature : Option Float) → Result LlmResponse
unfolding system_of contents_of usage_of strip
complete client provider messages max_tokens temperature =
    client provider.api_key (record {
      model = provider.model;
      contents = contents_of messages;
      system_instruction = system_of messages;
      max_output_tokens = max_tokens;
      temperature = temperature;
    })
    >>= λ answer. ok (record {
      content = strip (text_or_empty answer.text);
      model = provider.model;
      usage = usage_of answer.usage_metadata;
    })

-- `_build_gemini`
abbrev pub build_gemini : Settings → Result GeminiProvider
build_gemini settings = new_gemini settings.gemini_api_key settings.gemini_model

-- `_PROVIDERS`
abbrev pub providers : Dict String (Settings → Result GeminiProvider)
providers = ("gemini", build_gemini) ∷ []

unfoldable pub build_llm_provider :
    (lower repr : String → String) → Settings → Result GeminiProvider
unfolding strip get new_gemini raise_insight
build_llm_provider lower repr settings =
    elim (get (lower (strip settings.active_llm_provider)) providers) [
      | none ↦ err (
          raise_insight configuration (
            "Unknown LLM provider "
            <> repr settings.active_llm_provider
            <> "; supported providers: ['gemini']"))
      | some factory ↦ factory settings
    ]

-- The argument `responses` of the fake provider.
pub data Script : Type 0 where
  absent : Script
  scripted : List String → Script
  computed : (List LlmMessage → String) → Script

pub record FakeLlmProvider : Type 0 where
  pub model : String
  pub responses : List String
  pub callable : Option (List LlmMessage → String)
  pub calls : List (List LlmMessage)

-- `FakeLLMProvider.__init__`: `list(responses or [])` is computed first, also for a function.
unfoldable pub new_fake : Script → (model : String) → Result FakeLlmProvider
new_fake absent model = ok (record { model = model; responses = []; callable = none; calls = [] })
new_fake (scripted responses) model =
    ok (record { model = model; responses = responses; callable = none; calls = [] })
new_fake (computed f) model = err (other "TypeError" "'function' object is not iterable")

-- The texts of the user's messages.
abbrev user_texts : List LlmMessage → List String
user_texts messages = map (λ m. m.content) (keep_if (λ m. m.role == "user") messages)

-- The text that the fake provider answers with, and the responses that are left.
unfoldable pub fake_content : FakeLlmProvider → List LlmMessage → String × List String
unfolding keep_if join
fake_content fake messages = elim fake.callable [
  | some f ↦ (f messages, fake.responses)
  | none ↦ elim fake.responses [
    | [] ↦ (join " " (user_texts messages), [])
    | next ∷ rest ↦ (next, rest)
  ]
]

-- `FakeLLMProvider.complete`
unfoldable pub fake_complete : FakeLlmProvider → List LlmMessage → LlmResponse × FakeLlmProvider
unfolding fake_content
fake_complete fake messages =
    let (content, rest) = fake_content fake messages in
    (
      record { content = content; model = fake.model; usage = [] },
      record fake { responses = rest; calls = fake.calls ++ (messages ∷ []) },
    )
