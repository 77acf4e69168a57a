-- ===== src/OperaLog/Masked.antt =====
-- The arguments that are recorded.
use git_hub_repository_resea.Base.{
  String, ◌≡◌, subst, true, List, [], ◌∷◌, ◌==◌, one_of, Bool-cases, inl, inr, eq_iff,
  if◌then◌else◌,
}
use git_hub_repository_resea.Exec.{Result, ok}
use git_hub_repository_resea.Exec.Hoare.{and_then_ok}
use git_hub_repository_resea.Json.{Json, Dict, has_key}
use git_hub_repository_resea.OperaLog.{Ciphers, Cipher, encrypted, desensitize, entry}

module _ (ciphers : Ciphers) (cipher : Cipher) (keys : List String) where
  abbrev hide : String → Json → Result Json
  hide k v = if one_of k keys then encrypted ciphers cipher v else ok v

  -- When the arguments are made ready for the log, each one is there under its key: what the cipher
  -- makes of it, if the key is one to hide, and the argument itself if not.
  pub desensitize-entry :
      (args : Dict) {hidden : Dict} (k : String)
      → desensitize ciphers cipher keys args ≡ ok hidden
      → has_key k args ≡ true
      → hide k (entry k args) ≡ ok (entry k hidden)
  unfolding desensitize entry has_key
  desensitize-entry [] k returned there = cc there
  desensitize-entry ((j, v) ∷ args) {hidden} k returned there =
      let (w, one, e1) = and_then_ok (hide j v) _ returned in
      let (rest, others, e2) = and_then_ok (desensitize ciphers cipher keys args) _ e1 in
      let same : ((j, w) ∷ rest) ≡ hidden = cc e2 in
      subst (λ d. hide k (entry k ((j, v) ∷ args)) ≡ ok (entry k d)) same
        (elim (Bool-cases (j == k)) [
          | inl here ↦ rw here (subst (λ i. hide i v ≡ ok w) ((eq_iff j k).0 here) one)
          | inr other ↦ rw other (desensitize-entry args k others (cc (other, there)))
        ])
