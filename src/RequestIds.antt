-- ===== src/RequestIds.antt =====
-- utils/request_id.py and middleware/request_id_middleware.py: the id of the request that is served,
-- in a context variable. A fresh uuid is an argument of what may need one.
use git_hub_repository_resea.Base.{
  String, ◌≡◌, refl, subst, inl, inr, Option, none, some, List, [], ◌∷◌, ◌==◌, or_text, eq_refl,
  arith, if◌then◌else◌,
}
use git_hub_repository_resea.Exec.{Exec, ok, try_finally, ◌>>=◌}
use git_hub_repository_resea.Exec.Hoare.{Result-cases}

-- the context variable beside the rest of the state
pub record Context (W : Type 0) : Type 0 where
  pub request_id : String
  pub world : W

pub record Reply : Type 0 where
  pub body : String
  pub headers : List (String × String)

unfoldable pub set_header : String → String → List (String × String) → List (String × String)
set_header name v [] = (name, v) ∷ []
set_header name v ((n, w) ∷ rest) =
    let others = set_header name v rest in if n == name then (n, v) ∷ rest else (n, w) ∷ others

unfoldable pub header : String → List (String × String) → Option String
header name [] = none
header name ((n, w) ∷ rest) = if n == name then some w else header name rest

abbrev with_header : String → String → Reply → Reply
with_header name v reply = record reply { headers = set_header name v reply.headers }

header-set_header :
    (name v : String) (headers : List (String × String))
    → header name (set_header name v headers) ≡ some v
unfolding header set_header
header-set_header name v [] = rw (eq_refl name) refl
header-set_header name v ((n, w) ∷ rest) = ground (arith, header-set_header name v rest)

module _ {W : Type 0} where
  -- `value or generate_request_id()`
  unfoldable pub set_request_id : String → Option String → Exec (Context W) String
  set_request_id uuid value c =
      let request_id = or_text value uuid in (ok request_id, record c { request_id = request_id })

  unfoldable pub get_request_id : Context W → String
  get_request_id c = c.request_id

  unfoldable pub clear_request_id : Exec (Context W) Unit
  clear_request_id c = (ok tt, record c { request_id = "-" })

  -- RequestIdMiddleware.dispatch, for the value of the header in the request
  unfoldable pub dispatch :
      String → String → Option String → Exec (Context W) Reply → Exec (Context W) Reply
  unfolding set_request_id clear_request_id set_header
  dispatch header_name uuid value call_next = do
    request_id ← set_request_id uuid value
    try_finally (call_next >>= λ reply c. (ok (with_header header_name request_id reply), c))
        clear_request_id

  returned_lem :
      {A : Type 0} (m : Exec (Context W) A) (c : Context W) (P : Reply → Type 0) (f : A → Reply)
      → ((a : A) → P (f a))
      → (reply : Reply) → (try_finally (m >>= λ a c. (ok (f a), c)) clear_request_id c).0 ≡ ok reply
      → P reply
  unfolding try_finally ◌>>=◌ clear_request_id
  returned_lem m c P f holds reply returned = elim (Result-cases (m c).0) [
    | inl (a, e) ↦ let same : f a ≡ reply = cc (e, returned) in subst P same (holds a)
    | inr (x, e) ↦ absurd (cc (e, returned))
  ]

  -- However the rest of the application ends, the context has its default id again behind the
  -- middleware; and a reply that it returns has, in the header, the id of the request: the value of
  -- the request's header, or a fresh uuid if that is missing or empty.
  pub dispatch-set_header :
      (header_name uuid : String) (value : Option String) (call_next : Exec (Context W) Reply)
      (c : Context W)
      → ((dispatch header_name uuid value call_next c).1.request_id ≡ "-")
        × ((reply : Reply)
            → (dispatch header_name uuid value call_next c).0 ≡ ok reply
            → header header_name reply.headers ≡ some (or_text value uuid))
  unfolding dispatch set_request_id clear_request_id try_finally ◌>>=◌
  dispatch-set_header header_name uuid value call_next c =
      let id = or_text value uuid in
      (
        refl,
        returned_lem call_next (record c { request_id = id })
            (λ reply. header header_name reply.headers ≡ some id) (with_header header_name id)
            (λ reply. header-set_header header_name id reply.headers),
      )
