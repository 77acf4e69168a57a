-- ===== src/Connection/Retries.antt =====
-- The connection check succeeds or fails after a number of attempts.
use git_hub_repository_resea.Base.{ℕ, zero, suc, ◌<◌, ◌≡◌, refl, ◌∙◌, Bool, arith}
use git_hub_repository_resea.Errors.{Error}
use git_hub_repository_resea.Exec.{Exec, ok, raise}
use git_hub_repository_resea.Connection.{success_of, failure_of, check_database_connection}

module _ {S : Type 0} (attempt : Exec S Unit) where
  -- the state behind a number of attempts
  unfoldable pub after_attempts : ℕ → S → S
  after_attempts zero s = s
  after_attempts (suc k) s = after_attempts k (attempt s).1

  abbrev pub Fails : S → Type 0
  Fails s = (e : Error) × ((attempt s).0 ≡ raise e)

  failing-pass :
      (n : ℕ) (health : Bool) (s : S)
      → Fails s
      → check_database_connection attempt (suc (suc n)) health s
        ≡ check_database_connection attempt (suc n) health (attempt s).1
  unfolding check_database_connection
  failing-pass n health s (e, failed) = rw failed refl

  passing :
      (n : ℕ) (health : Bool) (s : S)
      → (attempt s).0 ≡ ok tt
      → check_database_connection attempt (suc n) health s ≡ (success_of health, (attempt s).1)
  unfolding check_database_connection
  passing zero health s passed = rw passed refl
  passing (suc n) health s passed = rw passed refl

  -- If the database answers at some attempt within the limit, whatever number of attempts has failed
  -- before, the check succeeds, right behind that attempt.
  pub check_database_connection-succeeds :
      (max_retries k : ℕ) (health : Bool) (s : S)
      → k < max_retries
      → ((i : ℕ) → i < k → Fails (after_attempts i s))
      → (attempt (after_attempts k s)).0 ≡ ok tt
      → check_database_connection attempt max_retries health s
        ≡ (success_of health, after_attempts (suc k) s)
  unfolding after_attempts
  check_database_connection-succeeds zero k health s within failed passed =
      absurd (omega (arith, within))
  check_database_connection-succeeds (suc n) zero health s within failed passed =
      passing n health s passed
  check_database_connection-succeeds (suc zero) (suc k) health s within failed passed =
      absurd (omega (arith, within))
  check_database_connection-succeeds (suc (suc n)) (suc k) health s within failed passed =
      failing-pass n health s (failed 0 (omega arith))
      ∙ check_database_connection-succeeds (suc n) k health (attempt s).1 (omega (arith, within))
          (λ i below. failed (suc i) (omega (arith, below))) passed

  last_failing :
      (health : Bool) (s : S) {e : Error}
      → (attempt s).0 ≡ raise e
      → check_database_connection attempt 1 health s ≡ (failure_of health e, (attempt s).1)
  unfolding check_database_connection
  last_failing health s failed = rw failed refl

  -- If every attempt within a limit of at least one fails, the check makes them all and then reports
  -- the last failure, or leaves the process outside a health check. It never just returns.
  pub check_database_connection-Fails :
      (n : ℕ) (health : Bool) (s : S) {e : Error}
      → ((i : ℕ) → i < suc n → Fails (after_attempts i s))
      → (attempt (after_attempts n s)).0 ≡ raise e
      → check_database_connection attempt (suc n) health s
        ≡ (failure_of health e, after_attempts (suc n) s)
  unfolding after_attempts
  check_database_connection-Fails zero health s failed last = last_failing health s last
  check_database_connection-Fails (suc n) health s failed last =
      failing-pass n health s (failed 0 (omega arith))
      ∙ check_database_connection-Fails n health (attempt s).1
          (λ i below. failed (suc i) (omega (arith, below))) last
