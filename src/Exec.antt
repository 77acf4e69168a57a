-- ===== src/Exec.antt =====
-- Python statements as functions of the state that they change: the result or the exception stands
-- beside the next state, which holds everything written until then.
pub mod Hoare
use git_hub_repository_resea.Base.{◌≡◌, refl, Option, none, some, Bool, if◌then◌else◌}
use git_hub_repository_resea.Errors.{Error}

pub data Result {ℓ} (A : Type ℓ) : Type ℓ where
  ok : A → Result A
  raise : Error → Result A

-- A step of a computation that may raise and changes nothing.
abbrev pub and_then {ℓ κ} : {A : Type ℓ} {B : Type κ} → Result A → (A → Result B) → Result B
and_then (ok a) f = f a
and_then (raise e) f = raise e

abbrev pub Exec : Type 0 → Type 0 → Type 0
Exec S A = S → Result A × S

module _ {S A : Type 0} where
  abbrev pub gets : (S → A) → Exec S A
  gets f s = (ok (f s), s)

  abbrev pub throw : Error → Exec S A
  throw e s = (raise e, s)

  abbrev pub pure : A → Exec S A
  pure a s = (ok a, s)

  abbrev pub lift : Result A → Exec S A
  lift r s = (r, s)

module _ {S : Type 0} where
  abbrev pub modify : (S → S) → Exec S Unit
  modify f s = (ok tt, f s)

module _ {S A B : Type 0} where
  abbrev pub continue : Result A → (A → Exec S B) → Exec S B
  continue (ok a) f s = f a s
  continue (raise e) f s = (raise e, s)

  infixl 5 ◌>>=◌ ◌>>◌
  unfoldable pub ◌>>=◌ : Exec S A → (A → Exec S B) → Exec S B
  ◌>>=◌ m f s = let (r, s') = m s in continue r f s'

  abbrev pub ◌>>◌ : Exec S A → Exec S B → Exec S B
  m >> n = m >>= λ _. n

module _ {S A : Type 0} where
  -- `try: m` / `except …`: the handler says for each exception what to do.
  abbrev pub handle : Result A → (Error → Exec S A) → Exec S A
  handle (ok a) f s = (ok a, s)
  handle (raise e) f s = f e s

  unfoldable pub try_except : Exec S A → (Error → Exec S A) → Exec S A
  try_except m f s = let (r, s') = m s in handle r f s'

module _ {S A B : Type 0} where
  abbrev pub settle : Result A → (Error → Exec S B) → (A → Exec S B) → Exec S B
  settle (ok a) f g s = g a s
  settle (raise e) f g s = f e s

  -- `try: m` / `except Exception: f` / `else: g`: what `f` and `g` raise is not caught.
  unfoldable pub try_else : Exec S A → (Error → Exec S B) → (A → Exec S B) → Exec S B
  try_else m f g s = let (r, s') = m s in settle r f g s'

-- A statement under `if`, with no `else`.
abbrev pub when : {S : Type 0} → Bool → Exec S Unit → Exec S Unit
when b m = if b then m else pure tt

abbrev then_result : {A : Type 0} → Result (Unit {0}) → Result A → Result A
then_result (ok u) r = r
then_result (raise e) r = raise e

module _ {S A : Type 0} where
  -- `try: m` / `finally: f`: what `f` raises stands in the place of what `m` returned or raised.
  unfoldable pub try_finally : Exec S A → Exec S Unit → Exec S A
  try_finally m f s = let (r, s1) = m s in let (u, s2) = f s1 in (then_result u r, s2)
