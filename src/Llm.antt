-- ===== src/Llm.antt =====
-- app/research/adapters/llm_adapter.py. The OpenAI client is a parameter: its constructor, the call
-- that parses the answer, and the closing of the connection, each of which may raise.
pub mod Contract
use git_hub_repository_resea.Base.{
  String, Option, none, some, List, [], ◌∷◌, ◌||◌, truthy, if◌then◌else◌,
}
use git_hub_repository_resea.Errors.{Error, llm_unavailable, content_policy, str}
use git_hub_repository_resea.Exec.{
  Exec, Result, ok, raise, throw, lift, try_except, try_finally, ◌>>=◌, ◌>>◌,
}
use git_hub_repository_resea.Schema.{LlmPromptPayload, StructuredAiResponse}
use git_hub_repository_resea.Text.{contains, lower}
use git_hub_repository_resea.Ports.{LlmClient}

-- `response.choices[i].message`
pub record ChatMessage : Type 0 where
  pub refusal : Option String
  pub parsed : Option StructuredAiResponse

pub record Provider (N : Type 0) : Type 0 where
  pub connect : Exec N Unit
  pub parse : String → Exec N (List ChatMessage)
  pub close : Exec N Unit

-- the exception of the adapter for an exception of the client
unfoldable pub translate : Error → Error
translate exc =
    let lowered = lower (str exc) in
    if contains "policy" lowered || contains "content" lowered
    then content_policy (str exc)
    else llm_unavailable (str exc)

abbrev pub empty_response : Error
empty_response = llm_unavailable "The AI provider returned an empty response."

abbrev parsed_or_empty : Option StructuredAiResponse → Result StructuredAiResponse
parsed_or_empty none = raise empty_response
parsed_or_empty (some ai) = ok ai

abbrev answer_in : Option String → Option StructuredAiResponse → Result StructuredAiResponse
answer_in none parsed = parsed_or_empty parsed
answer_in (some why) parsed =
    if truthy why then raise (content_policy why) else parsed_or_empty parsed

unfoldable pub answer_of : List ChatMessage → Result StructuredAiResponse
answer_of [] = raise empty_response
answer_of (choice ∷ rest) = answer_in choice.refusal choice.parsed

module _ {N : Type 0} (provider : Provider N) (api_key : String) where
  -- the `try` with its `except` and its `finally`
  unfoldable pub request : String → Exec N (List ChatMessage)
  request prompt_text =
      try_finally (try_except (provider.parse prompt_text) (λ exc. throw (translate exc)))
        provider.close

  unfoldable pub analyze : LlmPromptPayload → Exec N StructuredAiResponse
  analyze prompt_payload =
      if truthy api_key
      then (do
        provider.connect
        choices ← request prompt_payload.prompt_text
        lift (answer_of choices))
      else throw
          (llm_unavailable "AI analysis is unavailable because OPENAI_API_KEY is not configured.")

  unfoldable pub llm_adapter : LlmClient N
  llm_adapter = record { analyze = analyze }
