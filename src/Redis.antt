-- ===== src/Redis.antt =====
-- database/redis.py and app/research/adapters/redis_adapter.py. The server and its client library
-- are a parameter: a type of states with the values in them, and the round trips, which may raise.
-- A value is the dump of the model that was stored; the JSON text between is the library's.
pub mod Commands
pub mod Contract
pub mod Prefix
use git_hub_repository_resea.Base.{
  ℕ, String, ◌≡◌, Option, none, some, ◌==◌, if◌then◌else◌, Bool, true, false, List, [], ◌∷◌, one_of,
}
use git_hub_repository_resea.Errors.{other}
use git_hub_repository_resea.Exec.{Exec, Result, ok, raise, pure, lift, gets, modify, ◌>>=◌, ◌>>◌}
use git_hub_repository_resea.Schema.{ResearchJobStateSnapshot, StructuredAiResponse}
use git_hub_repository_resea.Text.{◌<>◌}
use git_hub_repository_resea.Ports.{StateCache}

pub data Payload : Type 0 where
  snapshot : ResearchJobStateSnapshot → Payload
  insights : StructuredAiResponse → Payload

-- a server whose values are of type `V`
pub record Server (R V : Type 0) : Type 0 where
  pub attempt : Exec R Unit
  pub value : R → String → Option V
  pub put : String → V → Option ℕ → R → R
  pub remove : String → R → R
  pub scan : String → Exec R (List String)

abbrev pub Redis : Type 0 → Type 0
Redis R = Server R Payload

pub record IsRedis {R V : Type 0} (redis : Server R V) : Type 0 where
  pub value-attempt : (r : R) (k : String) → redis.value (redis.attempt r).1 k ≡ redis.value r k
  pub value-put :
      (k : String) (v : V) (ttl : Option ℕ) (r : R) (j : String)
      → redis.value (redis.put k v ttl r) j ≡ (if k == j then some v else redis.value r j)
  pub value-remove :
      (k : String) (r : R) (j : String)
      → redis.value (redis.remove k r) j ≡ (if k == j then none else redis.value r j)
  pub value-scan :
      (pattern : String) (r : R) (k : String)
      → redis.value (redis.scan pattern r).1 k ≡ redis.value r k

-- the `exclude` of `delete_prefix`
pub data Exclude : Type 0 where
  nothing : Exclude
  one_key : String → Exclude
  keys : List String → Exclude

abbrev pub is_excluded : Exclude → String → Bool
is_excluded nothing key = false
is_excluded (one_key k) key = key == k
is_excluded (keys l) key = one_of key l

-- The loop over the keys that the scan gives.
unfoldable pub keys_to_delete : Exclude → List String → List String
keys_to_delete exclude [] = []
keys_to_delete exclude (key ∷ found) =
    let rest = keys_to_delete exclude found in if is_excluded exclude key then rest else key ∷ rest

unfoldable pub state_key : String → String
state_key job_id = "research:job:" <> job_id

unfoldable pub ai_key : String → String
ai_key cache_key = "research:ai:" <> cache_key

-- `model_validate` refuses the dump of another model.
abbrev pub as_snapshot : Option Payload → Result (Option ResearchJobStateSnapshot)
as_snapshot none = ok none
as_snapshot (some (snapshot s)) = ok (some s)
as_snapshot (some (insights ai)) = raise (other "validation error for ResearchJobStateSnapshot")

abbrev pub as_insights : Option Payload → Result (Option StructuredAiResponse)
as_insights none = ok none
as_insights (some (insights ai)) = ok (some ai)
as_insights (some (snapshot s)) = raise (other "validation error for StructuredAIResponse")

-- the snapshot that a poll of the job finds
abbrev pub snapshot_in : Option Payload → Option ResearchJobStateSnapshot
snapshot_in (some (snapshot s)) = some s
snapshot_in _ = none

-- what `RedisCli.open` does: it returns, or leaves the process
pub data Opened : Type 0 where
  opened exited : Opened

abbrev opened_if : Result (Unit {0}) → Opened
opened_if (ok u) = opened
opened_if (raise e) = exited

module _ {R V : Type 0} (redis : Server R V) where
  -- Whatever the ping raises, the process ends.
  unfoldable pub open_redis : R → Opened × R
  open_redis r = let (pong, r') = redis.attempt r in (opened_if pong, r')

  -- The command is sent, takes effect, and is answered.
  unfoldable pub set : String → V → Option ℕ → Exec R Unit
  set key v expire_seconds = do
    redis.attempt
    modify (redis.put key v expire_seconds)
    redis.attempt

  unfoldable pub get : String → Exec R (Option V)
  get key = do redis.attempt; gets (λ r. redis.value r key)

  unfoldable pub delete_key : String → Exec R Unit
  delete_key key = do redis.attempt; modify (redis.remove key); redis.attempt

  unfoldable pub remove_keys : List String → R → R
  remove_keys [] r = r
  remove_keys (key ∷ rest) r = remove_keys rest (redis.remove key r)

  -- `if keys: await self.delete(*keys)`
  unfoldable pub delete_keys : List String → Exec R Unit
  delete_keys [] = pure tt
  delete_keys (key ∷ rest) = do redis.attempt; modify (remove_keys (key ∷ rest)); redis.attempt

  unfoldable pub delete_prefix : String → Exclude → Exec R Unit
  delete_prefix prefix exclude = do
    found ← redis.scan (prefix <> "*")
    delete_keys (keys_to_delete exclude found)

module _ {R : Type 0} (redis : Redis R) where
  unfoldable pub set_json : String → Payload → Option ℕ → Exec R Unit
  unfolding set
  set_json key v expire_seconds = set redis key v expire_seconds

  unfoldable pub get_json : String → Exec R (Option Payload)
  unfolding get
  get_json key = get redis key

  unfoldable pub set_state : ℕ → ResearchJobStateSnapshot → Exec R Unit
  set_state ttl s = set_json (state_key s.job_id) (snapshot s) (some ttl)

  unfoldable pub get_state : String → Exec R (Option ResearchJobStateSnapshot)
  get_state job_id = do payload ← get_json (state_key job_id); lift (as_snapshot payload)

  unfoldable pub delete_state : String → Exec R Unit
  delete_state job_id = delete_key redis (state_key job_id)

  unfoldable pub get_cached_ai_result : String → Exec R (Option StructuredAiResponse)
  get_cached_ai_result cache_key = do
    payload ← get_json (ai_key cache_key)
    lift (as_insights payload)

  unfoldable pub set_cached_ai_result : ℕ → String → StructuredAiResponse → Exec R Unit
  set_cached_ai_result ttl cache_key ai = set_json (ai_key cache_key) (insights ai) (some ttl)

  -- `RedisStateCacheAdapter(client, status_ttl_seconds=…, ai_cache_ttl_seconds=…)`
  unfoldable pub redis_state_cache : ℕ → ℕ → StateCache R
  redis_state_cache status_ttl ai_ttl = record {
    set_state = set_state status_ttl;
    get_state = get_state;
    delete_state = delete_state;
    get_cached_ai_result = get_cached_ai_result;
    set_cached_ai_result = set_cached_ai_result ai_ttl;
  }

  abbrev pub stored_state : R → String → Option ResearchJobStateSnapshot
  stored_state r job_id = snapshot_in (redis.value r (state_key job_id))
