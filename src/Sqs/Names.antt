-- ===== src/Sqs/Names.antt =====
-- The queue's name in its URL.
use Prim.Native.String.{[] as nil, ◌∷◌ as ◌∷ᶜ◌}
use git_hub_repository_resea.Base.{
  String, ◌≡◌, ◌≢◌, refl, ◌∙◌, Bool, true, List, [], ◌∷◌, truthy, arith, eq_iff, Bool-cases, inl,
  inr,
}
use git_hub_repository_resea.Text.{Char, ◌<>◌, is_char, split, cons_head}
use git_hub_repository_resea.Text.Laws.{<>_assoc}
use git_hub_repository_resea.Text.Preserve.{none_of, split_none, rstrip-<>}
use git_hub_repository_resea.Sqs.{last_of, queue_name_from_url}

abbrev pub slash : Char → Bool
slash = is_char b'/'

-- A text with a slash has two parts at least.
two_parts :
    (base name : String)
    → none_of slash name ≡ true
    → (x : String) × (y : String) × (l : List String) × (split slash (base <> "/" <> name)
        ≡ x ∷ y ∷ l)
unfolding split ◌<>◌
two_parts nil name h = (nil, name, [], rw (split_none slash name h) refl)
two_parts (c ∷ᶜ base) name h =
    let (x, y, l, e) = two_parts base name h in
    elim (Bool-cases (slash c)) [
      | inl cut ↦ (nil, x, y ∷ l, rw (cut, e) refl)
      | inr part ↦ (c ∷ᶜ x, y, l, rw (part, e) refl)
    ]

last_of-cons_head :
    (c : Char) (d : String) (parts : List String) (x y : String) (l : List String)
    → parts ≡ x ∷ y ∷ l
    → last_of d (cons_head c parts) ≡ last_of d parts
unfolding last_of
last_of-cons_head c d parts x y l e = rw e refl

last_of-cons :
    (d : String) (parts : List String) (x y : String) (l : List String)
    → parts ≡ x ∷ y ∷ l
    → last_of d (nil ∷ parts) ≡ last_of d parts
unfolding last_of
last_of-cons d parts x y l e = rw e refl

-- The last part is what stands behind the last slash.
last_of-split :
    (d base name : String)
    → none_of slash name ≡ true
    → last_of d (split slash (base <> "/" <> name)) ≡ name
unfolding split ◌<>◌
last_of-split d nil name h = rw (split_none slash name h) (unfold last_of in refl)
last_of-split d (c ∷ᶜ base) name h =
    let (x, y, l, e) = two_parts base name h in
    elim (Bool-cases (slash c)) [
      | inl cut ↦ rw cut (last_of-cons d _ x y l e ∙ last_of-split d base name h)
      | inr part ↦ rw part (last_of-cons_head c d _ x y l e ∙ last_of-split d base name h)
    ]

truthy_lem : (s : String) → s ≢ "" → truthy s ≡ true
truthy_lem s ne = ground (arith, eq_iff s "", ne)

not_empty-<> : (base name : String) → base <> "/" <> name ≢ ""
unfolding ◌<>◌
not_empty-<> nil name e = cc e
not_empty-<> (c ∷ᶜ base) name e = cc e

-- From the URL of a queue, which ends in a slash and the queue's name, the adapter takes the name,
-- whatever stands before it and whatever the default is; the name is not empty and has no slash.
pub queue_name_from_url_lem :
    (base name default_name : String)
    → name ≢ ""
    → none_of slash name ≡ true
    → queue_name_from_url (base <> "/" <> name) default_name ≡ name
unfolding queue_name_from_url
queue_name_from_url_lem base name default_name ne h =
    rw (truthy_lem (base <> "/" <> name) (not_empty-<> base name)) (
      rw (← <>_assoc base "/" name) (
        rw (rstrip-<> slash (base <> "/") name ne h)
          (rw (<>_assoc base "/" name) (last_of-split "" base name h))))
