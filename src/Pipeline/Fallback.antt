-- ===== src/Pipeline/Fallback.antt =====
-- The AI stage of pipeline.py, over any model that keeps the contract of its port.
use git_hub_repository_resea.Base.{
  String, ◌≡◌, refl, true, List, [], ◌∷◌, Option, none, some, one_of, if◌then◌else◌,
}
use git_hub_repository_resea.Errors.{
  Error, problem, llm_unavailable, content_policy, http_error, coded_error, other, str,
}
use git_hub_repository_resea.Exec.{Result, ok, raise, continue, handle, pure, try_except, ◌>>=◌}
use git_hub_repository_resea.Schema.{LlmPromptPayload, PartialAnalysisWarning, StructuredAiResponse}
use git_hub_repository_resea.Ports.{IsLlmClient, is_ai_error}
use git_hub_repository_resea.Pipeline.{
  AiOutcome, analyze_and_cache, cache_insights, call_llm, fall_back, with_warnings,
}
use git_hub_repository_resea.Pipeline.Limitations.{HasMessages, add_limitations_lem}
use git_hub_repository_resea.World.{World, Services, on_cache, on_net}

-- The insights are those of the model, but for the limitations: every message of a warning is among
-- them, and every limitation that the model gave.
pub record IsWarned (warnings : List PartialAnalysisWarning) (ai warned : StructuredAiResponse)
    : Type 0 where
  pub others : warned ≡ record ai {
    security_health = record ai.security_health {
      limitations = warned.security_health.limitations;
    };
  }
  pub messages : HasMessages warnings warned.security_health.limitations
  pub kept :
      (y : String)
      → one_of y ai.security_health.limitations ≡ true
      → one_of y warned.security_health.limitations ≡ true

with_warnings-IsWarned :
    (warnings : List PartialAnalysisWarning) (ai : StructuredAiResponse)
    → IsWarned warnings ai (with_warnings warnings ai)
unfolding with_warnings
with_warnings-IsWarned [] ai = record { others = refl; messages = tt; kept = λ y h. h }
with_warnings-IsWarned (w ∷ warnings) ai =
    let l = add_limitations_lem ai.security_health.limitations (w ∷ warnings) in
    record { others = refl; messages = l.0; kept = l.1 }

module _ {D C Q N : Type 0} (sv : Services D C Q N) where
  -- the answer to an exception of the cache
  abbrev pub after_cache : StructuredAiResponse → Result (Unit {0}) → Result AiOutcome
  after_cache ai (ok u) = ok (some ai, none)
  after_cache ai (raise e) = if is_ai_error e then ok (some ai, some (str e)) else raise e

  -- What the stage does for each result of the model: it caches the insights with the warnings, or
  -- gives up the insights.
  abbrev pub IsStage :
      String
      → LlmPromptPayload
      → World D C Q N
      → Result StructuredAiResponse
      → Result AiOutcome × World D C Q N
      → Type 0
  IsStage cache_key payload w (ok ai) after =
      (warned : StructuredAiResponse) × IsWarned payload.warnings ai warned
      × (after ≡ (
        after_cache warned (sv.cache.set_cached_ai_result cache_key warned w.cache).0,
        record w {
          cache = (sv.cache.set_cached_ai_result cache_key warned w.cache).1;
          net = (sv.llm.analyze payload w.net).1;
        },
      ))
  IsStage cache_key payload w (raise e) after =
      after ≡ (ok (none, some (str e)), record w { net = (sv.llm.analyze payload w.net).1 })

  fall_back_any :
      (ai : Option StructuredAiResponse) (e : Error) (w : World D C Q N)
      → fall_back sv ai e w ≡ ((if is_ai_error e then ok (ai, some (str e)) else raise e), w)
  unfolding fall_back
  fall_back_any ai (llm_unavailable m) w = refl
  fall_back_any ai (content_policy m) w = refl
  fall_back_any ai (problem p) w = refl
  fall_back_any ai (http_error x) w = refl
  fall_back_any ai (coded_error x) w = refl
  fall_back_any ai (other m) w = refl

  cache_insights_lem :
      (cache_key : String) (ai : StructuredAiResponse) (w : World D C Q N)
      → cache_insights sv cache_key (some ai, none) w ≡ (
        after_cache ai (sv.cache.set_cached_ai_result cache_key ai w.cache).0,
        record w { cache = (sv.cache.set_cached_ai_result cache_key ai w.cache).1 },
      )
  unfolding cache_insights try_except on_cache ◌>>=◌
  cache_insights_lem cache_key ai w =
      by_result (sv.cache.set_cached_ai_result cache_key ai w.cache).0
    where
      by_result :
          (r : Result (Unit {0}))
          → (let w1 = record w { cache = (sv.cache.set_cached_ai_result cache_key ai w.cache).1 } in
              let (r1, w2) = continue r (λ u. pure (some ai, none)) w1 in
              handle r1 (fall_back sv (some ai)) w2)
            ≡ (
              after_cache ai r,
              record w { cache = (sv.cache.set_cached_ai_result cache_key ai w.cache).1 },
            )
      by_result (ok u) = refl
      by_result (raise e) = fall_back_any (some ai) e _

  cache_insights-none :
      (cache_key reason : String) (w : World D C Q N)
      → cache_insights sv cache_key (none, some reason) w ≡ (ok (none, some reason), w)
  unfolding cache_insights
  cache_insights-none cache_key reason w = refl

  -- Over a model that raises only the two exceptions of its port: where the model answers, the stage
  -- writes under the cache key, and gives, the insights with every warning among their limitations,
  -- and raises only what that write raises and is not of the two; where the model raises, the stage
  -- gives no insights and the text of the exception, and writes nothing to the cache. The tables and
  -- the queue stay as they are.
  pub analyze_and_cache-IsStage :
      IsLlmClient sv.llm
      → (cache_key : String) (payload : LlmPromptPayload) (w : World D C Q N)
      → IsStage cache_key payload w
          (sv.llm.analyze payload w.net).0
          (analyze_and_cache sv cache_key payload w)
  unfolding analyze_and_cache try_except call_llm on_net ◌>>=◌
  analyze_and_cache-IsStage L cache_key payload w =
      by_result (sv.llm.analyze payload w.net).0 (λ e raised. L.raises payload w.net raised)
    where
      by_result :
          (r : Result StructuredAiResponse)
          → ((e : Error) → r ≡ raise e → is_ai_error e ≡ true)
          → IsStage cache_key payload w r (
              let w1 = record w { net = (sv.llm.analyze payload w.net).1 } in
              let (r1, w2) =
                continue r (λ ai. pure (some (with_warnings payload.warnings ai), none)) w1 in
              let (r2, w3) = handle r1 (fall_back sv none) w2 in
              continue r2 (cache_insights sv cache_key) w3)
      by_result (ok ai) only_ai = (
        with_warnings payload.warnings ai,
        with_warnings-IsWarned payload.warnings ai,
        cache_insights_lem cache_key (with_warnings payload.warnings ai) _,
      )
      by_result (raise e) only_ai =
          rw
            (
              fall_back_any none e (record w { net = (sv.llm.analyze payload w.net).1 }),
              only_ai e refl,
            )
            (cache_insights-none cache_key (str e) _)
