-- ===== src/Redis/Prefix.antt =====
-- The deletion of keys by their prefix.
use git_hub_repository_resea.Base.{
  String, ◌≡◌, refl, ◌∙◌, ◌&&◌, not, ap, Bool-cases, inl, inr, none, List, [], ◌∷◌, ◌==◌, one_of,
  eq_iff, arith, if◌then◌else◌,
}
use git_hub_repository_resea.Exec.{ok, ◌>>=◌}
use git_hub_repository_resea.Exec.Hoare.{bind_ok}
use git_hub_repository_resea.Text.{◌<>◌}
use git_hub_repository_resea.Redis.{
  Exclude, is_excluded, Server, IsRedis, delete_keys, delete_prefix, keys_to_delete, remove_keys,
}

one_of-keys_to_delete :
    (exclude : Exclude) (found : List String) (k : String)
    → one_of k (keys_to_delete exclude found) ≡ (one_of k found && not (is_excluded exclude k))
unfolding keys_to_delete
one_of-keys_to_delete exclude [] k = refl
one_of-keys_to_delete exclude (key ∷ found) k = elim (Bool-cases (k == key)) [
  | inl same ↦
      let e : k ≡ key = (eq_iff k key).0 same in
      ground (arith, ap (is_excluded exclude) e, one_of-keys_to_delete exclude found k)
  | inr other ↦ ground (arith, one_of-keys_to_delete exclude found k)
]

module _ {R V : Type 0} {redis : Server R V} (L : IsRedis redis) where
  value-remove_keys :
      (l : List String) (r : R) (k : String)
      → redis.value (remove_keys redis l r) k ≡ (if one_of k l then none else redis.value r k)
  unfolding remove_keys
  value-remove_keys [] r k = refl
  value-remove_keys (j ∷ l) r k = ground (
    arith,
    eq_iff j k,
    eq_iff k j,
    L.value-remove j r k,
    value-remove_keys l (redis.remove j r) k,
  )

  value-delete_keys :
      (l : List String) (r : R) (k : String)
      → (delete_keys redis l r).0 ≡ ok tt
      → redis.value (delete_keys redis l r).1 k ≡ (if one_of k l then none else redis.value r k)
  unfolding delete_keys ◌>>=◌
  value-delete_keys [] r k returned = refl
  value-delete_keys (j ∷ l) r k returned =
      let r1 = (redis.attempt r).1 in
      let r2 = remove_keys redis (j ∷ l) r1 in
      ground (arith, L.value-attempt r k, value-remove_keys (j ∷ l) r1 k, L.value-attempt r2 k)

  -- When `delete_prefix` returns, the scan for the prefix has given a list of keys; those of them
  -- that are not excluded have no value any more, and every other key has the value that it had.
  pub value-delete_prefix :
      (prefix : String) (exclude : Exclude) (r : R)
      → (delete_prefix redis prefix exclude r).0 ≡ ok tt
      → (found : List String) × ((redis.scan (prefix <> "*") r).0 ≡ ok found)
        × ((k : String)
            → redis.value (delete_prefix redis prefix exclude r).1 k
              ≡ (if one_of k found && not (is_excluded exclude k) then none else redis.value r k))
  unfolding delete_prefix
  value-delete_prefix prefix exclude r returned =
      let (found, scanned, deleted, same) = bind_ok (redis.scan (prefix <> "*")) _ r returned in
      let r1 = (redis.scan (prefix <> "*") r).1 in
      (
        found,
        scanned,
        λ k.
            rw (same, ← one_of-keys_to_delete exclude found k)
              (value-delete_keys (keys_to_delete exclude found) r1 k deleted
                ∙ rw (L.value-scan (prefix <> "*") r k) refl),
      )
