-- ===== src/Json.antt =====
-- JSON values as the program meets them: the body of GitHub's answer, free-form options, and the
-- payloads of problem responses. A number that is not a natural one keeps its spelling.
use git_hub_repository_resea.Base.{
  ℕ, String, Bool, true, false, Option, none, some, List, [], ◌∷◌, ◌==◌, if◌then◌else◌,
}

mutual
  pub data Json : Type 0 where
    null : Json
    bool : Bool → Json
    num : ℕ → Json
    other_num : String → Json
    text : String → Json
    arr : JsonList → Json
    obj : JsonFields → Json

  pub data JsonList : Type 0 where
    nil : JsonList
    cons : Json → JsonList → JsonList

  pub data JsonFields : Type 0 where
    end : JsonFields
    field : String → Json → JsonFields → JsonFields

-- The entries of a JSON array, in order.
unfoldable pub items : JsonList → List Json
items nil = []
items (cons v vs) = v ∷ items vs

unfoldable pub lookup : String → JsonFields → Option Json
lookup k end = none
lookup k (field j v fs) = if j == k then some v else lookup k fs

-- A dict as Python keeps it: `d[k] = v` replaces in place or appends.
abbrev pub Dict : Type 0
Dict = List (String × Json)

unfoldable pub set_item : String → Json → Dict → Dict
set_item k v [] = (k, v) ∷ []
set_item k v ((j, w) ∷ d) = if j == k then (k, v) ∷ d else (j, w) ∷ set_item k v d

-- d.update(e)
unfoldable pub update : Dict → Dict → Dict
unfolding set_item
update d [] = d
update d ((k, v) ∷ e) = update (set_item k v d) e

-- k in d
unfoldable pub has_key : String → Dict → Bool
has_key k [] = false
has_key k ((j, v) ∷ d) = if j == k then true else has_key k d
