-- ===== src/Redis/Contract.antt =====
-- The adapter keeps the contract of the cache port.
use Prim.Native.String.{[] as nil, ◌∷◌ as ◌∷ᶜ◌}
use git_hub_repository_resea.Base.{
  ℕ, String, ◌≡◌, ap, ◌≢◌, ◌⊎◌, inl, inr, Option, some, ◌==◌, eq_iff, eq_refl, arith, if◌then◌else◌,
}
use git_hub_repository_resea.Exec.{ok, ◌>>=◌}
use git_hub_repository_resea.Exec.Hoare.{bind_ok}
use git_hub_repository_resea.Schema.{ResearchJobStateSnapshot, StructuredAiResponse}
use git_hub_repository_resea.Text.{◌<>◌, code}
use git_hub_repository_resea.Text.Laws.{<>_cancel_left}
use git_hub_repository_resea.Ports.{IsStateCache}
use git_hub_repository_resea.Redis.Commands.{value-set, value-set_any, get_ok}
use git_hub_repository_resea.Redis.{
  Payload, snapshot, insights, Redis, IsRedis, get, state_key, ai_key, set_json, get_json,
  set_state, get_state, get_cached_ai_result, set_cached_ai_result, redis_state_cache, stored_state,
  snapshot_in,
}

-- Keys of different jobs are different, and no key of a job is a key of an AI result.
state_key-== : (a b : String) → (state_key a == state_key b) ≡ (a == b)
unfolding state_key
state_key-== a b =
    ground
      (arith, eq_iff a b, eq_iff (state_key a) (state_key b), <>_cancel_left "research:job:" a b)

abbrev first_code : String → ℕ
first_code nil = 0
first_code (c ∷ᶜ s) = code c

ai-ne-job : (a b : String) → "ai:" <> a ≢ "job:" <> b
unfolding ◌<>◌
ai-ne-job a b e = absurd (omega (arith, ap first_code e))

ai_key-ne-state_key : (a b : String) → ai_key a ≢ state_key b
unfolding ai_key state_key ◌<>◌
ai_key-ne-state_key a b e = ai-ne-job a b (<>_cancel_left "research:" _ _ e)

module _ {R : Type 0} {redis : Redis R} (L : IsRedis redis) where
  -- a write under another key
  set_json_keeps :
      (key : String) (v : Payload) (ttl : Option ℕ) (r : R) (j : String)
      → key ≢ state_key j
      → stored_state redis (set_json redis key v ttl r).1 j ≡ stored_state redis r j
  unfolding set_json
  set_json_keeps key v ttl r j other_key = elim (value-set_any L key v ttl r (state_key j)) [
    | inl same ↦ ap snapshot_in same
    | inr (e, _) ↦ absurd (other_key e)
  ]

  set_state_any :
      (ttl : ℕ) (s : ResearchJobStateSnapshot) (r : R) (j : String)
      → (stored_state redis (set_state redis ttl s r).1 j ≡ stored_state redis r j)
        ⊎ ((s.job_id ≡ j) × (stored_state redis (set_state redis ttl s r).1 j ≡ some s))
  unfolding set_state set_json
  set_state_any ttl s r j =
      elim (value-set_any L (state_key s.job_id) (snapshot s) (some ttl) r (state_key j)) [
        | inl same ↦ inl (ap snapshot_in same)
        | inr (e, stored) ↦ inr (
          <>_cancel_left "research:job:" s.job_id j (unfold state_key in e),
          ap snapshot_in stored,
        )
      ]

  set_state_ok :
      (ttl : ℕ) (s : ResearchJobStateSnapshot) (r : R) (j : String)
      → (set_state redis ttl s r).0 ≡ ok tt
      → stored_state redis (set_state redis ttl s r).1 j
        ≡ (if s.job_id == j then some s else stored_state redis r j)
  unfolding set_state set_json
  set_state_ok ttl s r j returned = ground (
    arith,
    state_key-== s.job_id j,
    value-set L (state_key s.job_id) (snapshot s) (some ttl) r (state_key j) returned,
  )

  get_state_ok :
      (j : String) (r : R) {o : Option ResearchJobStateSnapshot}
      → (get_state redis j r).0 ≡ ok o
      → o ≡ stored_state redis r j
  unfolding get_state get_json
  get_state_ok j r returned =
      let (payload, read, decoded, _) = bind_ok (get redis (state_key j)) _ r returned in
      let e = get_ok L (state_key j) r read in ground arith

  get_state_keeps :
      (j : String) (r : R) (k : String)
      → stored_state redis (get_state redis j r).1 k ≡ stored_state redis r k
  unfolding get_state get_json get ◌>>=◌
  get_state_keeps j r k = ground (arith, L.value-attempt r (state_key k))

  get_cached_keeps :
      (key : String) (r : R) (k : String)
      → stored_state redis (get_cached_ai_result redis key r).1 k ≡ stored_state redis r k
  unfolding get_cached_ai_result get_json get ◌>>=◌
  get_cached_keeps key r k = ground (arith, L.value-attempt r (state_key k))

  -- The adapter over Redis is a state cache as the port describes it, whatever the times to live:
  -- a poll finds the snapshot that was set last for its job, and cached AI results, which live under
  -- other keys, change no snapshot.
  pub redis_state_cache-IsStateCache :
      (status_ttl ai_ttl : ℕ)
      → IsStateCache (redis_state_cache redis status_ttl ai_ttl) (stored_state redis)
  unfolding redis_state_cache set_cached_ai_result
  redis_state_cache-IsStateCache status_ttl ai_ttl = record {
    set_state_ok = set_state_ok status_ttl;
    set_state_any = set_state_any status_ttl;
    get_state_ok = get_state_ok;
    get_state_keeps = get_state_keeps;
    get_cached_keeps = get_cached_keeps;
    set_cached_keeps = λ key ai r j.
        set_json_keeps (ai_key key) (insights ai) (some ai_ttl) r j (ai_key-ne-state_key key j);
  }

  -- As long as Redis has under its key what the write of a cached AI result left there, whatever else
  -- has changed, a read of the key that returns gives that result.
  pub get_cached-set_cached :
      (ttl : ℕ) (key : String) (ai : StructuredAiResponse) (r after : R)
      {o : Option StructuredAiResponse}
      → (set_cached_ai_result redis ttl key ai r).0 ≡ ok tt
      → redis.value after (ai_key key)
        ≡ redis.value (set_cached_ai_result redis ttl key ai r).1 (ai_key key)
      → (get_cached_ai_result redis key after).0 ≡ ok o
      → o ≡ some ai
  unfolding set_cached_ai_result get_cached_ai_result set_json get_json
  get_cached-set_cached ttl key ai r after stored kept got =
      let (payload, read, decoded, _) = bind_ok (get redis (ai_key key)) _ after got in
      let e = get_ok L (ai_key key) after read in
      ground (
        arith,
        eq_refl (ai_key key),
        value-set L (ai_key key) (insights ai) (some ttl) r (ai_key key) stored,
      )
