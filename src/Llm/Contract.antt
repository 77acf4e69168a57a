-- ===== src/Llm/Contract.antt =====
-- The adapter keeps the contract of the model port.
use git_hub_repository_resea.Base.{String, ◌≡◌, true, List, [], ◌∷◌, arith}
use git_hub_repository_resea.Errors.{Error}
use git_hub_repository_resea.Exec.{ok, raise, try_except, try_finally, ◌>>=◌}
use git_hub_repository_resea.Schema.{LlmPromptPayload}
use git_hub_repository_resea.Ports.{IsLlmClient, is_ai_error}
use git_hub_repository_resea.Llm.{
  ChatMessage, Provider, translate, answer_of, request, analyze, llm_adapter,
}

-- The client opens and closes connections without an exception; the call itself may raise any.
pub record IsProvider {N : Type 0} (provider : Provider N) : Type 0 where
  pub connect_ok : (n : N) → (provider.connect n).0 ≡ ok tt
  pub close_ok : (n : N) → (provider.close n).0 ≡ ok tt

translate-is_ai_error : (e : Error) → is_ai_error (translate e) ≡ true
unfolding translate
translate-is_ai_error e = ground arith

answer_of-is_ai_error :
    (choices : List ChatMessage) {e : Error} → answer_of choices ≡ raise e → is_ai_error e ≡ true
unfolding answer_of
answer_of-is_ai_error [] h = ground arith
answer_of-is_ai_error (choice ∷ rest) h = ground arith

module _ {N : Type 0} {provider : Provider N} (L : IsProvider provider) (api_key : String) where
  request-is_ai_error :
      (prompt_text : String) (n : N) {e : Error}
      → (request provider api_key prompt_text n).0 ≡ raise e
      → is_ai_error e ≡ true
  unfolding request try_finally try_except
  request-is_ai_error prompt_text n raised =
      grind (arith, L.close_ok (provider.parse prompt_text n).1, translate-is_ai_error)

  analyze-is_ai_error :
      (payload : LlmPromptPayload) (n : N) {e : Error}
      → (analyze provider api_key payload n).0 ≡ raise e
      → is_ai_error e ≡ true
  unfolding analyze ◌>>=◌
  analyze-is_ai_error payload n raised =
      let n1 = (provider.connect n).1 in
      grind
        (arith, L.connect_ok n, answer_of-is_ai_error, request-is_ai_error payload.prompt_text n1)

  -- Over a client that opens and closes its connections, the adapter raises nothing but the two
  -- exceptions of the AI stage, whatever the call raises or answers, and with any key.
  pub llm_adapter-IsLlmClient : IsLlmClient (llm_adapter provider api_key)
  unfolding llm_adapter
  llm_adapter-IsLlmClient = record { raises = analyze-is_ai_error }
