-- ===== src/Exec/Hoare.antt =====
-- Rules for statements: what holds after them, whether they return or raise.
use git_hub_repository_resea.Base.{◌≡◌, refl, ◌⊎◌, inl, inr, Bool, true, false, if◌then◌else◌}
use git_hub_repository_resea.Errors.{Error}
use git_hub_repository_resea.Exec.{
  Exec, Result, ok, raise, and_then, pure, throw, lift, gets, continue, handle, settle, ◌>>=◌,
  try_except, try_else,
}

pub Result-cases :
    {A : Type 0} (r : Result A) → ((a : A) × (r ≡ ok a)) ⊎ ((e : Error) × (r ≡ raise e))
Result-cases (ok a) = inl (a, refl)
Result-cases (raise e) = inr (e, refl)

-- A computation that returns has passed its first step.
pub and_then_ok :
    {A B : Type 0} (r : Result A) (f : A → Result B) {b : B}
    → and_then r f ≡ ok b
    → (a : A) × (r ≡ ok a) × (f a ≡ ok b)
and_then_ok (ok a) f h = (a, refl, h)
and_then_ok (raise e) f h = cc h

-- `m` keeps `Inv`, whether it returns or raises.
pub record Keeps {State Value : Type 0} (Inv : State → Type 0) (m : Exec State Value) : Type 0 where
  pub at : (st : State) → Inv st → Inv (m st).1

-- From `Inv`, `m` keeps `Inv`, and has `Q` besides when it returns.
pub record Gains {State Value : Type 0} (Inv : State → Type 0) (Q : Value → State → Type 0)
    (m : Exec State Value) : Type 0 where
  pub keeps : (st : State) → Inv st → Inv (m st).1
  pub gains : (st : State) (v : Value) → Inv st → (m st).0 ≡ ok v → Q v (m st).1

module _ {State Value : Type 0} {Inv : State → Type 0} where
  pub Keeps-gets : (f : State → Value) → Keeps Inv (gets f)
  Keeps-gets f = record { at = λ st held. held }

  pub Keeps-throw : (e : Error) → Keeps Inv (throw {A = Value} e)
  Keeps-throw e = record { at = λ st held. held }

  pub Keeps-pure : (v : Value) → Keeps Inv (pure v)
  Keeps-pure v = record { at = λ st held. held }

  pub Keeps-lift : (r : Result Value) → Keeps Inv (lift r)
  Keeps-lift r = record { at = λ st held. held }

  pub Keeps-if :
      (b : Bool) (m n : Exec State Value)
      → Keeps Inv m
      → Keeps Inv n
      → Keeps Inv (if b then m else n)
  Keeps-if true m n km kn = km
  Keeps-if false m n km kn = kn

  Keeps-handle :
      (r : Result Value) (f : Error → Exec State Value) (st : State)
      → Inv st
      → ((e : Error) → Keeps Inv (f e))
      → Inv (handle r f st).1
  Keeps-handle (ok v) f st held kf = held
  Keeps-handle (raise e) f st held kf = (kf e).at st held

  pub Keeps-try :
      (m : Exec State Value) (f : Error → Exec State Value)
      → Keeps Inv m
      → ((e : Error) → Keeps Inv (f e))
      → Keeps Inv (try_except m f)
  unfolding try_except
  Keeps-try m f km kf = record {
    at = λ st held. Keeps-handle (m st).0 f (m st).1 (km.at st held) kf;
  }

module _ {State Value Next : Type 0} {Inv : State → Type 0} where
  Keeps-continue :
      (r : Result Value) (f : Value → Exec State Next) (st : State)
      → Inv st
      → ((v : Value) → Keeps Inv (f v))
      → Inv (continue r f st).1
  Keeps-continue (ok v) f st held kf = (kf v).at st held
  Keeps-continue (raise e) f st held kf = held

  pub Keeps-bind :
      (m : Exec State Value) (f : Value → Exec State Next)
      → Keeps Inv m
      → ((v : Value) → Keeps Inv (f v))
      → Keeps Inv (m >>= f)
  unfolding ◌>>=◌
  Keeps-bind m f km kf = record {
    at = λ st held. Keeps-continue (m st).0 f (m st).1 (km.at st held) kf;
  }

  Keeps-settle :
      (r : Result Value) (f : Error → Exec State Next) (g : Value → Exec State Next) (st : State)
      → Inv st
      → ((e : Error) → Keeps Inv (f e))
      → ((v : Value) → Keeps Inv (g v))
      → Inv (settle r f g st).1
  Keeps-settle (ok v) f g st held kf kg = (kg v).at st held
  Keeps-settle (raise e) f g st held kf kg = (kf e).at st held

  pub Keeps-try_else :
      (m : Exec State Value) (f : Error → Exec State Next) (g : Value → Exec State Next)
      → Keeps Inv m
      → ((e : Error) → Keeps Inv (f e))
      → ((v : Value) → Keeps Inv (g v))
      → Keeps Inv (try_else m f g)
  unfolding try_else
  Keeps-try_else m f g km kf kg = record {
    at = λ st held. Keeps-settle (m st).0 f g (m st).1 (km.at st held) kf kg;
  }

  Gains-continue :
      {Q : Value → State → Type 0} (r : Result Value) (f : Value → Exec State Next) (st : State)
      → Inv st
      → ((v : Value) → r ≡ ok v → Q v st)
      → ((v : Value) (t : State) → Inv t → Q v t → Inv (f v t).1)
      → Inv (continue r f st).1
  Gains-continue (ok v) f st held g kf = kf v st held (g v refl)
  Gains-continue (raise e) f st held g kf = held

  -- What `m` gains is there for the rest.
  pub Keeps-bind-Gains :
      {Q : Value → State → Type 0} (m : Exec State Value) (f : Value → Exec State Next)
      → Gains Inv Q m
      → ((v : Value) (t : State) → Inv t → Q v t → Inv (f v t).1)
      → Keeps Inv (m >>= f)
  unfolding ◌>>=◌
  Keeps-bind-Gains m f gm kf = record {
    at = λ st held.
        Gains-continue (m st).0 f (m st).1 (gm.keeps st held) (λ v e. gm.gains st v held e) kf;
  }

-- Whenever `m` returns, `Q` holds of the result and the state.
pub record Yields {State Value : Type 0} (Q : Value → State → Type 0) (m : Exec State Value)
    : Type 0 where
  pub at : (st : State) (v : Value) → (m st).0 ≡ ok v → Q v (m st).1

module _ {State Value Next : Type 0} {Q : Next → State → Type 0} where
  Yields-continue :
      (r : Result Value) (f : Value → Exec State Next) (st : State) (b : Next)
      → ((v : Value) → Yields Q (f v))
      → (continue r f st).0 ≡ ok b
      → Q b (continue r f st).1
  Yields-continue (ok v) f st b yf e = (yf v).at st b e
  Yields-continue (raise x) f st b yf e = cc

  pub Yields-bind :
      (m : Exec State Value) (f : Value → Exec State Next)
      → ((v : Value) → Yields Q (f v))
      → Yields Q (m >>= f)
  unfolding ◌>>=◌
  Yields-bind m f yf = record { at = λ st b e. Yields-continue (m st).0 f (m st).1 b yf e }

pub ruleset keeps_rules = (
  Keeps-bind, Keeps-try, Keeps-try_else, Keeps-if, Keeps-lift, Keeps-pure, Keeps-throw, Keeps-gets,
)

module _ {State Value Next : Type 0} where
  -- A block that returns has passed its first statement.
  pub bind_ok :
      (m : Exec State Value) (f : Value → Exec State Next) (st : State) {b : Next}
      → ((m >>= f) st).0 ≡ ok b
      → (v : Value) × ((m st).0 ≡ ok v)
        × ((f v (m st).1).0 ≡ ok b)
        × (((m >>= f) st).1 ≡ (f v (m st).1).1)
  unfolding ◌>>=◌
  bind_ok m f st returned = continue_ok (m st).0 f (m st).1 returned
    where
      continue_ok :
          (r : Result Value) (f : Value → Exec State Next) (st : State) {b : Next}
          → (continue r f st).0 ≡ ok b
          → (v : Value) × (r ≡ ok v) × ((f v st).0 ≡ ok b) × ((continue r f st).1 ≡ (f v st).1)
      continue_ok (ok v) f st e = (v, refl, e, refl)
      continue_ok (raise x) f st e = cc
