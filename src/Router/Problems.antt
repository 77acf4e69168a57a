-- ===== src/Router/Problems.antt =====
-- The problem documents of the API.
use git_hub_repository_resea.Base.{
  String, ◌≡◌, refl, ◌∙◌, true, Option, none, some, if◌then◌else◌, ◌||◌, [], ◌∷◌, ◌++◌, ◌==◌,
  Bool-cases, inl, inr, eq_iff, eq_refl, arith,
}
use git_hub_repository_resea.Errors.{
  Error, str, problem, llm_unavailable, content_policy, http_error, coded_error, other,
  ResearchProblem, to_dict, given,
}
use git_hub_repository_resea.Exec.{Result, ok, raise}
use git_hub_repository_resea.Json.{Json, text, num, Dict, set_item, update, has_key}
use git_hub_repository_resea.Router.{
  Response, success, problem_document, problem_response, unexpected_problem, respond,
}

has_key-++ : (k : String) (d e : Dict) → has_key k (d ++ e) ≡ (has_key k d || has_key k e)
unfolding has_key
has_key-++ k [] e = refl
has_key-++ k ((j, v) ∷ d) e = ground (arith, has_key-++ k d e)

has_key-set_item :
    (k j : String) (v : Json) (d : Dict) → has_key k (set_item j v d) ≡ (has_key k d || j == k)
unfolding has_key set_item
has_key-set_item k j v [] = ground arith
has_key-set_item k j v ((i, w) ∷ d) =
    ground (arith, eq_iff i j, eq_iff i k, eq_iff j k, has_key-set_item k j v d)

has_key-update : (k : String) (d e : Dict) → has_key k (update d e) ≡ (has_key k d || has_key k e)
unfolding has_key update
has_key-update k d [] = ground arith
has_key-update k d ((j, v) ∷ e) =
    ground (arith, has_key-update k (set_item j v d) e, has_key-set_item k j v d)

-- the members that every problem document has
abbrev pub HasMembers : Dict → Type 0
HasMembers d =
    (has_key "type" d ≡ true)
    × (has_key "title" d ≡ true)
    × (has_key "status" d ≡ true)
    × (has_key "instance" d ≡ true)

-- a detail, unless it is empty
abbrev pub detail_member : Option String → Dict
detail_member none = []
detail_member (some d) = if d == "" then [] else ("detail", text d) ∷ []

-- the own instance of a problem, unless it is empty, or the path of the request
abbrev pub instance_or : Option String → String → String
instance_or none path = path
instance_or (some i) path = if i == "" then path else i

-- the members of a problem without extra ones
abbrev pub members_of : ResearchProblem → String → Dict
members_of p path =
    ("type", text p.type)
    ∷ ("title", text p.title)
    ∷ ("status", num p.status_code)
    ∷ (detail_member p.detail ++ ("instance", text (instance_or p.instance_path path)) ∷ [])

-- the members of an exception that is no problem
abbrev pub unexpected_members : String → String → String → Dict
unexpected_members request_id path message =
    ("type", text "/problems/internal-server-error")
    ∷ ("title", text "Internal server error")
    ∷ ("status", num 500)
    ∷ (detail_member (some message)
        ++ ("request_id", text request_id) ∷ ("instance", text path) ∷ [])

-- what is answered to each result of an endpoint's body
abbrev pub IsAnswer : {A : Type 0} → String → String → Result A → Response A → Type 0
IsAnswer request_id path (ok a) response = response ≡ success a
IsAnswer request_id path (raise (problem p)) response =
    (payload : Dict) × (response ≡ problem_document p.status_code payload p.headers)
    × HasMembers payload
    × (p.extra ≡ [] → payload ≡ members_of p path)
IsAnswer request_id path (raise e) response =
    response ≡ problem_document 500 (unexpected_members request_id path (str e)) []

to_dict_keeps :
    (k : String) (p : ResearchProblem)
    → has_key k
        (("type", text p.type) ∷ ("title", text p.title) ∷ ("status", num p.status_code) ∷ [])
      ≡ true
    → has_key k (to_dict p) ≡ true
unfolding to_dict
to_dict_keeps k p h =
    let base : Dict =
      ("type", text p.type) ∷ ("title", text p.title) ∷ ("status", num p.status_code) ∷ [] in
    let rest : Dict = given "detail" p.detail ++ given "instance" p.instance_path in
    ground (arith, has_key-update k (base ++ rest) p.extra, has_key-++ k base rest)

-- `payload.setdefault("instance", instance)`
abbrev with_instance : Dict → String → Dict
with_instance d path = if has_key "instance" d then d else d ++ ("instance", text path) ∷ []

with_instance-HasMembers :
    (p : ResearchProblem) (path : String) → HasMembers (with_instance (to_dict p) path)
unfolding has_key
with_instance-HasMembers p path =
    let d = to_dict p in
    let type = to_dict_keeps "type" p refl in
    let title = to_dict_keeps "title" p refl in
    let status = to_dict_keeps "status" p refl in
    elim (Bool-cases (has_key "instance" d)) [
      | inl there ↦ rw there (type, title, status, there)
      | inr missing ↦
          let one : Dict = ("instance", text path) ∷ [] in
          rw missing (
            ground (arith, has_key-++ "type" d one),
            ground (arith, has_key-++ "title" d one),
            ground (arith, has_key-++ "status" d one),
            has_key-++ "instance" d one ∙ ground (arith, eq_refl "instance"),
          )
    ]

with_instance_lem :
    (a b c : Json) (detail own : Option String) (path : String)
    → with_instance
        ((("type", a) ∷ ("title", b) ∷ ("status", c) ∷ [])
          ++ given "detail" detail
          ++ given "instance" own)
        path
      ≡ ("type", a)
        ∷ ("title", b)
        ∷ ("status", c)
        ∷ (detail_member detail ++ ("instance", text (instance_or own path)) ∷ [])
unfolding has_key
with_instance_lem a b c none none path = refl
with_instance_lem a b c none (some i) path = elim (Bool-cases (i == "")) [
  | inl blank ↦ rw blank refl
  | inr full ↦ rw full refl
]
with_instance_lem a b c (some d) none path = elim (Bool-cases (d == "")) [
  | inl blank ↦ rw blank refl
  | inr full ↦ rw full refl
]
with_instance_lem a b c (some d) (some i) path = elim (Bool-cases (d == "")) [
  | inl no_detail ↦ elim (Bool-cases (i == "")) [
    | inl blank ↦ rw (no_detail, blank) refl
    | inr full ↦ rw (no_detail, full) refl
  ]
  | inr detail ↦ elim (Bool-cases (i == "")) [
    | inl blank ↦ rw (detail, blank) refl
    | inr full ↦ rw (detail, full) refl
  ]
]

to_dict-plain :
    (p : ResearchProblem) (path : String)
    → p.extra ≡ []
    → with_instance (to_dict p) path ≡ members_of p path
unfolding to_dict update
to_dict-plain p path plain = rw plain (
    with_instance_lem (text p.type) (text p.title) (num p.status_code) p.detail p.instance_path
      path)

unexpected_lem :
    (A : Type 0) (request_id path : String) (e : Error)
    → unexpected_problem {A = A} request_id path e
      ≡ problem_document 500 (unexpected_members request_id path (str e)) []
unfolding unexpected_problem problem_response to_dict update set_item has_key
unexpected_lem A request_id path e = elim (Bool-cases (str e == "")) [
  | inl blank ↦ rw blank refl
  | inr full ↦ rw full refl
]

-- What an endpoint answers to each end of its body: the model, when it returns; for a problem, a
-- document with the problem's status and headers that has a type, a title, a status and an instance,
-- also if extra members overwrite some, and without extra members exactly the type, the title, the
-- status, the detail that is not empty, and the instance, which is the path where the problem has
-- none; for any other exception, a document of an internal error with the status 500, the text of the
-- exception, if any, as its detail, the request's id and the path.
pub respond-IsAnswer :
    {A : Type 0} (request_id path : String) (r : Result A)
    → IsAnswer request_id path r (respond request_id path r)
unfolding respond problem_response
respond-IsAnswer request_id path (ok a) = refl
respond-IsAnswer request_id path (raise (problem p)) =
    (with_instance (to_dict p) path, refl, with_instance-HasMembers p path, to_dict-plain p path)
respond-IsAnswer {A} request_id path (raise (llm_unavailable m)) =
    unexpected_lem A request_id path (llm_unavailable m)
respond-IsAnswer {A} request_id path (raise (content_policy m)) =
    unexpected_lem A request_id path (content_policy m)
respond-IsAnswer {A} request_id path (raise (http_error x)) =
    unexpected_lem A request_id path (http_error x)
respond-IsAnswer {A} request_id path (raise (coded_error x)) =
    unexpected_lem A request_id path (coded_error x)
respond-IsAnswer {A} request_id path (raise (other m)) = unexpected_lem A request_id path (other m)
