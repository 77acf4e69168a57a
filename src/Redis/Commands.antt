-- ===== src/Redis/Commands.antt =====
-- Single commands, for values of any type.
use git_hub_repository_resea.Base.{
  ℕ, String, ◌≡◌, ◌⊎◌, Option, none, some, ◌==◌, eq_iff, arith, if◌then◌else◌,
}
use git_hub_repository_resea.Exec.{ok, and_then, ◌>>=◌}
use git_hub_repository_resea.Redis.{Server, IsRedis, set, get, delete_key}

module _ {R V : Type 0} {redis : Server R V} (L : IsRedis redis) where
  pub value-set :
      (key : String) (v : V) (ttl : Option ℕ) (r : R) (k : String)
      → (set redis key v ttl r).0 ≡ ok tt
      → redis.value (set redis key v ttl r).1 k ≡ (if key == k then some v else redis.value r k)
  unfolding set ◌>>=◌
  value-set key v ttl r k returned =
      let r1 = (redis.attempt r).1 in
      let r2 = redis.put key v ttl r1 in
      ground (arith, L.value-attempt r k, L.value-put key v ttl r1 k, L.value-attempt r2 k)

  -- A write that raises has happened or not.
  pub value-set_any :
      (key : String) (v : V) (ttl : Option ℕ) (r : R) (k : String)
      → (redis.value (set redis key v ttl r).1 k ≡ redis.value r k)
        ⊎ ((key ≡ k) × (redis.value (set redis key v ttl r).1 k ≡ some v))
  unfolding set ◌>>=◌
  value-set_any key v ttl r k =
      let r1 = (redis.attempt r).1 in
      let r2 = redis.put key v ttl r1 in
      ground
        (arith, eq_iff key k, L.value-attempt r k, L.value-put key v ttl r1 k, L.value-attempt r2 k)

  pub value-get :
      (key : String) (r : R) (k : String) → redis.value (get redis key r).1 k ≡ redis.value r k
  unfolding get ◌>>=◌
  value-get key r k = ground (arith, L.value-attempt r k)

  pub get_ok :
      (key : String) (r : R) {o : Option V} → (get redis key r).0 ≡ ok o → o ≡ redis.value r key
  unfolding get ◌>>=◌
  get_ok key r returned = ground (arith, L.value-attempt r key)

  -- A read gives the value, or the exception of its round trip.
  pub get_lem :
      (key : String) (r : R)
      → (get redis key r).0 ≡ and_then (redis.attempt r).0 (λ u. ok (redis.value r key))
  unfolding get ◌>>=◌
  get_lem key r = ground (arith, L.value-attempt r key)

  pub value-delete_key :
      (key : String) (r : R) (k : String)
      → (delete_key redis key r).0 ≡ ok tt
      → redis.value (delete_key redis key r).1 k ≡ (if key == k then none else redis.value r k)
  unfolding delete_key ◌>>=◌
  value-delete_key key r k returned =
      let r1 = (redis.attempt r).1 in
      let r2 = redis.remove key r1 in
      ground (arith, L.value-attempt r k, L.value-remove key r1 k, L.value-attempt r2 k)
