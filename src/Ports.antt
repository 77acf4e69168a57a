-- ===== src/Ports.antt =====
-- app/research/ports/__init__.py: the boundaries that the services are written against, each over a
-- state of its own, and what an implementation of the cache promises.
use git_hub_repository_resea.Base.{
  Bool, true, false, ℕ, String, ◌≡◌, ◌⊎◌, Option, some, List, ◌==◌, if◌then◌else◌,
}
use git_hub_repository_resea.Errors.{Error, llm_unavailable, content_policy}
use git_hub_repository_resea.Exec.{Exec, ok, raise}
use git_hub_repository_resea.Schema.{
  DateTime, LlmPromptPayload, ParsedRepoTarget, ReceivedMessage, ResearchJobMessage,
  ResearchJobStateSnapshot, RepositoryRawContext, StructuredAiResponse,
}

pub record MessageQueue (Q : Type 0) : Type 0 where
  pub ensure_queues : Exec Q Unit
  pub send : ResearchJobMessage → Exec Q Unit
  pub receive : ℕ → Option ℕ → Exec Q (List ReceivedMessage)
  pub delete : String → Exec Q Unit
  pub change_visibility : String → ℕ → Exec Q Unit

pub record StateCache (C : Type 0) : Type 0 where
  pub set_state : ResearchJobStateSnapshot → Exec C Unit
  pub get_state : String → Exec C (Option ResearchJobStateSnapshot)
  pub delete_state : String → Exec C Unit
  pub get_cached_ai_result : String → Exec C (Option StructuredAiResponse)
  pub set_cached_ai_result : String → StructuredAiResponse → Exec C Unit

pub record GitHubClient (N : Type 0) : Type 0 where
  pub fetch_repository_context : ParsedRepoTarget → Exec N RepositoryRawContext

pub record LlmClient (N : Type 0) : Type 0 where
  pub analyze : LlmPromptPayload → Exec N StructuredAiResponse

-- `timezone.now()` and `uuid4()`
pub record Clock (N : Type 0) : Type 0 where
  pub time : N → DateTime × N
  pub uuid : N → String × N

-- The snapshot that a poll finds is the one set last. A call of `set_state` changes at most the
-- snapshot of its own job, to the given one, also if it raises; the other calls change none.
-- `state` is the implementation's view of the snapshots.
pub record IsStateCache {C : Type 0} (cache : StateCache C)
    (state : C → String → Option ResearchJobStateSnapshot) : Type 0 where
  pub set_state_ok :
      (s : ResearchJobStateSnapshot) (c : C) (j : String)
      → (cache.set_state s c).0 ≡ ok tt
      → state (cache.set_state s c).1 j ≡ (if s.job_id == j then some s else state c j)
  pub set_state_any :
      (s : ResearchJobStateSnapshot) (c : C) (j : String)
      → (state (cache.set_state s c).1 j ≡ state c j)
        ⊎ ((s.job_id ≡ j) × (state (cache.set_state s c).1 j ≡ some s))
  pub get_state_ok :
      (j : String) (c : C) {o : Option ResearchJobStateSnapshot}
      → (cache.get_state j c).0 ≡ ok o
      → o ≡ state c j
  pub get_state_keeps :
      (j : String) (c : C) (k : String) → state (cache.get_state j c).1 k ≡ state c k
  pub get_cached_keeps :
      (key : String) (c : C) (k : String) → state (cache.get_cached_ai_result key c).1 k ≡ state c k
  pub set_cached_keeps :
      (key : String) (ai : StructuredAiResponse) (c : C) (k : String)
      → state (cache.set_cached_ai_result key ai c).1 k ≡ state c k

-- the exceptions that the pipeline falls back on
abbrev pub is_ai_error : Error → Bool
is_ai_error (llm_unavailable m) = true
is_ai_error (content_policy m) = true
is_ai_error _ = false

-- What an implementation of the model promises: it raises no other exception.
pub record IsLlmClient {N : Type 0} (llm : LlmClient N) : Type 0 where
  pub raises :
      (payload : LlmPromptPayload) (n : N) {e : Error}
      → (llm.analyze payload n).0 ≡ raise e
      → is_ai_error e ≡ true
