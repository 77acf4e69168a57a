-- ===== src/Pipeline/Limitations.antt =====
-- The loop of pipeline.py that puts the warnings among the limitations of the insights.
use git_hub_repository_resea.Base.{
  String, ◌≡◌, refl, true, false, ◌||◌, List, [], ◌∷◌, ◌++◌, one_of, arith, if◌then◌else◌,
  Bool-cases, inl, inr, eq_iff, eq_refl,
}
use git_hub_repository_resea.Schema.{PartialAnalysisWarning}
use git_hub_repository_resea.Pipeline.{add_limitations}

-- no text twice
abbrev pub IsDistinct : List String → Type 0
IsDistinct [] = Unit
IsDistinct (x ∷ l) = (one_of x l ≡ false) × IsDistinct l

-- every message is in the list
abbrev pub HasMessages : List PartialAnalysisWarning → List String → Type 0
HasMessages [] l = Unit
HasMessages (w ∷ warnings) l = (one_of w.message l ≡ true) × HasMessages warnings l

one_of-++ : (x : String) (l m : List String) → one_of x (l ++ m) ≡ (one_of x l || one_of x m)
one_of-++ x [] m = refl
one_of-++ x (y ∷ l) m = ground (arith, one_of-++ x l m)

IsDistinct-++ :
    (l : List String) (x : String) → IsDistinct l → one_of x l ≡ false → IsDistinct (l ++ x ∷ [])
IsDistinct-++ [] x h free = (refl, tt)
IsDistinct-++ (y ∷ l) x h free = (
  ground (arith, one_of-++ y l (x ∷ []), h.0, eq_iff x y, eq_iff y x),
  IsDistinct-++ l x h.1 (ground arith),
)

-- the list behind one warning
abbrev with_one : List String → String → List String
with_one l x = if one_of x l then l else l ++ x ∷ []

IsDistinct-with_one : (l : List String) (x : String) → IsDistinct l → IsDistinct (with_one l x)
IsDistinct-with_one l x h = elim (Bool-cases (one_of x l)) [
  | inl there ↦ rw there h
  | inr free ↦ rw free (IsDistinct-++ l x h free)
]

one_of-with_one :
    (l : List String) (x y : String) → one_of y l ≡ true → one_of y (with_one l x) ≡ true
one_of-with_one l x y h = ground (arith, one_of-++ y l (x ∷ []))

one_of-added : (l : List String) (x : String) → one_of x (with_one l x) ≡ true
one_of-added l x = ground (arith, one_of-++ x l (x ∷ []), eq_refl x)

one_of-add_limitations :
    (warnings : List PartialAnalysisWarning) (l : List String) (y : String)
    → one_of y l ≡ true
    → one_of y (add_limitations l warnings) ≡ true
unfolding add_limitations
one_of-add_limitations [] l y h = h
one_of-add_limitations (w ∷ warnings) l y h =
    one_of-add_limitations warnings (with_one l w.message) y (one_of-with_one l w.message y h)

-- Behind the loop every warning's message is among the limitations, every limitation that was there
-- still is, and no text is there twice if none was.
pub add_limitations_lem :
    (l : List String) (warnings : List PartialAnalysisWarning)
    → HasMessages warnings (add_limitations l warnings)
      × ((y : String) → one_of y l ≡ true → one_of y (add_limitations l warnings) ≡ true)
      × (IsDistinct l → IsDistinct (add_limitations l warnings))
unfolding add_limitations
add_limitations_lem l [] = (tt, λ y h. h, λ h. h)
add_limitations_lem l (w ∷ warnings) =
    let rest = add_limitations_lem (with_one l w.message) warnings in
    (
      (one_of-add_limitations warnings _ w.message (one_of-added l w.message), rest.0),
      λ y h. one_of-add_limitations (w ∷ warnings) l y h,
      λ h. rest.2 (IsDistinct-with_one l w.message h),
    )
