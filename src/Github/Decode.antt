-- ===== src/Github/Decode.antt =====
-- What github_adapter.py makes of the body of an answer: `.get` and `[…]` on JSON values, which raise
-- on a value of another shape, the truth of a value, and the fields of the models.
-- The validators of pydantic are a parameter, and so is the arithmetic of floating-point numbers.
use git_hub_repository_resea.Base.{
  ℕ, String, Bool, true, false, not, Option, none, some, List, [], ◌∷◌, ltb, truthy, if◌then◌else◌,
  ◌&&◌, ◌||◌,
}
use git_hub_repository_resea.Errors.{other}
use git_hub_repository_resea.Exec.{Result, ok, raise, and_then}
use git_hub_repository_resea.Json.{
  Json, null, bool, num, other_num, text, arr, obj, nil, cons, end, field, items, lookup,
}
use git_hub_repository_resea.Schema.{CommitEntry, DateTime, LanguageEntry, RepositoryTreeEntry}
use git_hub_repository_resea.Text.{all_chars, before, is_char, left, starts_with}

infixl 5 ◌>>=◌
unfoldable pub ◌>>=◌ {ℓ κ} : {A : Type ℓ} {B : Type κ} → Result A → (A → Result B) → Result B
m >>= f = and_then m f

-- The validators of a field of each type, and `round(size / total * 100, 1)` in tenths.
pub record Pydantic : Type 0 where
  pub str : Json → Result String
  pub int : Json → Result ℕ
  pub boolean : Json → Result Bool
  pub datetime : Json → Result DateTime
  pub percentage : Json → Json → Result ℕ

abbrev pub none_or {ℓ} : {A : Type ℓ} → (Json → Result A) → Json → Result (Option A)
none_or validate null = ok none
none_or validate v = and_then (validate v) (λ a. ok (some a))

abbrev found : Option Json → Json → Json
found none d = d
found (some v) d = v

-- v.get(k, d)
unfoldable pub get_or : String → Json → Json → Result Json
unfolding lookup
get_or k d (obj fields) = ok (found (lookup k fields) d)
get_or k d _ = raise (other "object has no attribute 'get'")

-- v.get(k)
abbrev pub get : String → Json → Result Json
get k v = get_or k null v

abbrev required : String → Option Json → Result Json
required k none = raise (other k)
required k (some v) = ok v

-- v[k], for a text k
unfoldable pub index : String → Json → Result Json
unfolding lookup
index k (obj fields) = required k (lookup k fields)
index k _ = raise (other "object is not subscriptable by a text")

-- bool(v)
unfoldable pub truth : Json → Bool
unfolding all_chars before
truth null = false
truth (bool b) = b
truth (num n) = ltb 0 n
truth (other_num s) = not (
    all_chars (λ c. is_char b'0' c || is_char b'.' c || is_char b'-' c)
      (before (λ c. is_char b'e' c || is_char b'E' c) s))
truth (text s) = truthy s
truth (arr nil) = false
truth (arr (cons v l)) = true
truth (obj end) = false
truth (obj (field k v fields)) = true

-- `v or d`
unfoldable pub or_else : Json → Json → Json
unfolding truth
or_else v d = if truth v then v else d

abbrev pub empty : Json
empty = obj end

-- the loop `for … in v`, and `v[:n]`, of a value that should be a list
unfoldable pub each : Json → Result (List Json)
unfolding items
each (arr l) = ok (items l)
each _ = raise (other "object is not a list")

-- v > 0
unfoldable pub positive : Json → Result Bool
unfolding truth starts_with
positive (num n) = ok (ltb 0 n)
positive (bool b) = ok b
positive (other_num s) = ok (truth (other_num s) && not (starts_with s "-"))
positive _ = raise (other "'>' not supported")

-- v[:7]
unfoldable pub short : Json → Result String
short (text s) = ok (left 7 s)
short _ = raise (other "object is not a text")

abbrev pub add_if {ℓ} : {A : Type ℓ} → Option A → List A → List A
add_if none l = l
add_if (some a) l = a ∷ l

-- A comprehension whose body gives an element or passes.
unfoldable pub collect {ℓ} : {A : Type ℓ} → (Json → Result (Option A)) → List Json → Result (List A)
collect f [] = ok []
collect f (v ∷ l) = do o ← f v; rest ← collect f l; ok (add_if o rest)

module _ (py : Pydantic) where
  -- an entry for an edge whose node has a name
  unfoldable pub named_language : Json → Json → Json → Json → Result (Option LanguageEntry)
  unfolding get_or truth
  named_language total size node name =
      if truth name
      then (do
        percentage ← py.percentage size total
        color ← get "color" node
        name' ← py.str name
        color' ← none_or py.str color
        ok (some (record { name = name'; percentage = percentage; color = color' })))
      else ok none

  unfoldable pub language_of : Json → Json → Result (Option LanguageEntry)
  unfolding get_or or_else named_language
  language_of total edge = do
    size ← get_or "size" (num 0) edge
    node ← get "node" edge
    name ← get "name" (or_else node empty)
    named_language total size (or_else node empty) name

  -- the loop over the edges, for a total above zero
  unfoldable pub languages_in : Json → Json → Bool → Result (List LanguageEntry)
  unfolding get_or or_else collect each language_of
  languages_in langs_data total false = ok []
  languages_in langs_data total true = do
    edges ← get "edges" langs_data
    edge_list ← each (or_else edges (arr nil))
    collect (language_of total) edge_list

  unfoldable pub languages_of : Json → Result (List LanguageEntry)
  unfolding get_or or_else languages_in positive
  languages_of repository = do
    languages ← get "languages" repository
    let langs_data = or_else languages empty
    total_size ← get "totalSize" langs_data
    let total = or_else total_size (num 0)
    more ← positive total
    languages_in langs_data total more

  unfoldable pub topic_of : Json → Result (Option String)
  unfolding get_or truth
  topic_of node = do
    topic ← get_or "topic" empty node
    name ← get "name" topic
    if truth name then none_or py.str name else ok none

  unfoldable pub topics_of : Json → Result (List String)
  unfolding get_or or_else collect each topic_of
  topics_of repository = do
    topics ← get "repositoryTopics" repository
    nodes ← get_or "nodes" (arr nil) (or_else topics empty)
    node_list ← each nodes
    collect topic_of node_list

  -- an entry for a node with an id and a date
  unfoldable pub dated_commit : Json → Json → Json → Result (Option CommitEntry)
  unfolding get_or or_else truth short
  dated_commit node oid committed =
      if truth oid && truth committed
      then (do
        sha ← short oid
        headline ← get "messageHeadline" node
        author ← get "author" node
        author_name ← get "name" (or_else author empty)
        message ← py.str (or_else headline (text ""))
        committed_at ← py.datetime committed
        author_name' ← none_or py.str author_name
        ok (
            some (record {
              sha = sha;
              message = message;
              committed_at = committed_at;
              author_name = author_name';
            })))
      else ok none

  unfoldable pub commit_of : Json → Result (Option CommitEntry)
  unfolding get_or dated_commit
  commit_of node = do
    oid ← get "oid" node
    committed ← get "committedDate" node
    dated_commit node oid committed

  unfoldable pub commits_of : Json → Result (List CommitEntry)
  unfolding get_or or_else collect each commit_of
  commits_of commit = do
    history ← get "history" commit
    nodes ← get "nodes" (or_else history empty)
    node_list ← each (or_else nodes (arr nil))
    collect commit_of node_list

  unfoldable pub tree_entry_of : Json → Result (Option RepositoryTreeEntry)
  unfolding get_or index
  tree_entry_of item = do
    name ← index "name" item
    type ← get_or "type" (text "blob") item
    name' ← py.str name
    type' ← py.str type
    ok (some (record { name = name'; type = type' }))
