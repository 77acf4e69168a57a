-- ===== src/Handlers/Validation.antt =====
-- The answers to invalid input.
use git_hub_repository_resea.Base.{
  ℕ, String, ◌≡◌, ◌≢◌, refl, sym, ap, ◌∙◌, subst, Bool, true, false, ◌&&◌, ◌||◌, Option, none, some,
  List, [], ◌∷◌, ◌++◌, All, ◌==◌, truthy, is_some, Bool-cases, Option-cases, inl, inr, arith,
  eq_iff, if◌then◌else◌,
}
use git_hub_repository_resea.Exec.{Result, ok, ◌>>=◌}
use git_hub_repository_resea.Json.{Json, null, num, text, obj, end, field}
use git_hub_repository_resea.Text.{◌<>◌, any_char}
use git_hub_repository_resea.Text.Laws.{<>_nil}
use git_hub_repository_resea.Format.{format, format_from, scan, finish, plain, brace_free}
use git_hub_repository_resea.Format.Laws.{format_from-<>}
use git_hub_repository_resea.Messages.{validation_messages}
use git_hub_repository_resea.Handlers.{
  InputError, ContextError, Answer, lookup_text, has_context, message_for, custom_message,
  context_fields, shown_error, with_message, with_messages, last_of, first_message,
  validation_exception_handler, RequestState,
}

-- the only message that has a field
abbrev enum_text : String
enum_text = "Incorrect input for enum member, allowed values are "

abbrev is_plain : String → String → Bool
is_plain name m = truthy m && (brace_free m || name == "enum" && m == enum_text <> "{expected}")

abbrev all_plain : List (String × String) → Bool
all_plain [] = true
all_plain ((k, m) ∷ rest) = is_plain k m && all_plain rest

validation_messages_plain : all_plain validation_messages ≡ true
unfolding any_char ◌<>◌
validation_messages_plain = refl

-- the text that a table has for a type, or the given one
abbrev pub table_text : List (String × String) → String → String → String
table_text [] name own = own
table_text ((k, m) ∷ rest) name own =
    let later = table_text rest name own in if k == name then m else later

table_text-none :
    (rows : List (String × String)) (name own : String)
    → message_for rows name ≡ none
    → table_text rows name own ≡ own
unfolding message_for
table_text-none [] name own e = refl
table_text-none ((k, v) ∷ rest) name own e = elim (Bool-cases (k == name)) [
  | inl here ↦ absurd (cc (here, e))
  | inr there ↦ rw there (table_text-none rest name own (cc (there, e)))
]

message_for_plain :
    (rows : List (String × String)) (name own : String) {m : String}
    → all_plain rows ≡ true
    → message_for rows name ≡ some m
    → (is_plain name m ≡ true) × (table_text rows name own ≡ m)
unfolding message_for
message_for_plain [] name own h e = cc e
message_for_plain ((k, v) ∷ rest) name own {m} h e = elim (Bool-cases (k == name)) [
  | inl here ↦
      let same : v ≡ m = cc (here, e) in
      let same_name : k ≡ name = (eq_iff k name).0 here in
      let row : is_plain k v ≡ true = ground arith in
      (
        subst (λ t. is_plain name t ≡ true) same (subst (λ n. is_plain n v ≡ true) same_name row),
        rw here same,
      )
  | inr there ↦ rw there (message_for_plain rest name own (ground arith) (cc (there, e)))
]

module _ (fields : String → Result String) where
  format-brace_free : (m : String) → brace_free m ≡ true → format fields m ≡ ok m
  unfolding format finish
  format-brace_free m free =
      ap (format_from fields plain) (sym (<>_nil m))
      ∙ format_from-<> fields m "" free
      ∙ ap ok (<>_nil m)

  format-enum :
      {v : String}
      → fields "expected" ≡ ok v
      → (t : String) × (format fields (enum_text <> "{expected}") ≡ ok t)
  unfolding format format_from scan finish ◌<>◌ any_char
  format-enum {v} given =
      (enum_text <> v <> "", format_from-<> fields enum_text "{expected}" refl ∙ rw given refl)

  format-plain :
      (name m : String)
      → is_plain name m ≡ true
      → ((name == "enum") ≡ true → (v : String) × (fields "expected" ≡ ok v))
      → (t : String) × (format fields m ≡ ok t) × ((name == "enum") ≡ false → t ≡ m)
  format-plain name m h given = elim (Bool-cases (brace_free m)) [
    | inl free ↦ (m, format-brace_free m free, λ other. refl)
    | inr braces ↦
        let enum : (name == "enum") ≡ true = ground arith in
        let same : m ≡ enum_text <> "{expected}" = (eq_iff m _).0 (ground arith) in
        let (t, formatted) = format-enum (given enum).1 in
        (
          t,
          subst (λ n. format fields n ≡ ok t) (sym same) formatted,
          λ other. absurd (cc (enum, other)),
        )
  ]

module _ (is_status : ℕ → Bool) (str_of : Json → String) (development : Bool) where
  -- The input error has a place, and an error of an enum whose context is not empty has the values
  -- there that it expects.
  abbrev pub IsReported : InputError → Type 0
  IsReported error =
      (error.loc ≢ [])
      × ((error.type == "enum") ≡ true
          → has_context error.ctx error.ctx_error ≡ true
          → is_some (lookup_text "expected" error.ctx) ≡ true)

  context_fields_ok :
      (error : InputError)
      → is_some (lookup_text "expected" error.ctx) ≡ true
      → (v : String) × (context_fields is_status str_of development error "expected" ≡ ok v)
  unfolding context_fields
  context_fields_ok error h = elim (Option-cases (lookup_text "expected" error.ctx)) [
    | inl absent ↦ absurd (cc (absent, h))
    | inr (v, found) ↦ (v, rw found refl)
  ]

  -- An error with a new text; it is the text of the table, or the error's own, unless it is an enum.
  abbrev IsMessage : InputError → String → Type 0
  IsMessage error msg =
      (error.type == "enum") ≡ false → msg ≡ table_text validation_messages error.type error.msg

  with_message_ok :
      (error : InputError) (m : Option String)
      → custom_message error.type ≡ m
      → IsReported error
      → (msg : String) × (c : ContextError) × (with_message is_status str_of development error m
          ≡ ok (record error { msg = msg; ctx_error = c }))
        × IsMessage error msg
  unfolding with_message custom_message
  with_message_ok error none e h = (
    error.msg,
    error.ctx_error,
    refl,
    λ other. sym (table_text-none validation_messages error.type error.msg e),
  )
  with_message_ok error (some m) e (located, expected) =
      let (plain_text, same) =
        message_for_plain validation_messages error.type error.msg validation_messages_plain e in
      let full : truthy m ≡ true = ground arith in
      elim (Bool-cases (has_context error.ctx error.ctx_error)) [
        | inr without ↦ (m, error.ctx_error, rw (full, without) refl, λ other. sym same)
        | inl context ↦
            let (t, formatted, own) =
              format-plain (context_fields is_status str_of development error) error.type m
                plain_text (λ enum. context_fields_ok error (expected enum context)) in
            (
              t,
              shown_error is_status str_of development error.ctx_error,
              rw (full, context, formatted) refl,
              λ other. own other ∙ sym same,
            )
      ]

  with_messages_ok :
      (errors : List InputError)
      → All IsReported errors
      → (es : List InputError) × (with_messages is_status str_of development errors ≡ ok es)
  unfolding with_messages
  with_messages_ok [] h = ([], refl)
  with_messages_ok (error ∷ errors) (h, hs) =
      let (msg, c, one, _) = with_message_ok error (custom_message error.type) refl h in
      let (es, rest) = with_messages_ok errors hs in
      (record error { msg = msg; ctx_error = c } ∷ es, rw (one, rest) refl)

  last_of_ok :
      (v : Json) (l : List Json)
      → (front : List Json) × (w : Json) × (last_of is_status str_of development (v ∷ l) ≡ ok w)
        × (v ∷ l ≡ front ++ w ∷ [])
  last_of_ok v [] = ([], v, refl, refl)
  last_of_ok v (w ∷ l) =
      let (front, last, e, same) = last_of_ok w l in (v ∷ front, last, e, ap (λ m. v ∷ m) same)

  -- the first message: outside the development environment the text, in it with the last part of the
  -- place and the input
  abbrev pub IsPlaced : Bool → InputError → String → String → Type 0
  IsPlaced false error shown m = m ≡ shown
  IsPlaced true error shown m =
      (front : List Json) × (w : Json) × (error.loc ≡ front ++ w ∷ [])
      × (m ≡ str_of w <> " " <> shown <> "，enter：" <> str_of error.input)

  abbrev pub IsFirst : InputError → String → String → Type 0
  IsFirst error shown m =
      ((error.type == "json_invalid") ≡ true → m ≡ "json parsing failed")
      × ((error.type == "json_invalid") ≡ false → IsPlaced development error shown m)

  first_message_ok :
      (error : InputError) (shown : String) (c : ContextError) (es : List InputError)
      → error.loc ≢ []
      → (m : String) × (first_message is_status str_of development
            (record error { msg = shown; ctx_error = c } ∷ es)
          ≡ ok m)
        × IsFirst error shown m
  unfolding first_message
  first_message_ok error shown c es located = elim (Bool-cases (error.type == "json_invalid")) [
    | inl json ↦
        ("json parsing failed", rw json refl, (λ h. refl, λ other. absurd (cc (json, other))))
    | inr other ↦
        let (front, w, last, same) = last_ok error.loc located in
        let placed = str_of w <> " " <> shown <> "，enter：" <> str_of error.input in
        elim (Bool-cases development) [
          | inl dev ↦ (
            placed,
            rw (other, last, dev) refl,
            (
              λ json. absurd (cc (json, other)),
              λ h. subst (λ d. IsPlaced d error shown placed) (sym dev) (front, w, same, refl),
            ),
          )
          | inr production ↦ (
            shown,
            rw (other, last, production) refl,
            (
              λ json. absurd (cc (json, other)),
              λ h. subst (λ d. IsPlaced d error shown shown) (sym production) refl,
            ),
          )
        ]
  ]
    where
      last_ok :
          (l : List Json)
          → l ≢ []
          → (front : List Json) × (w : Json) × (last_of is_status str_of development l ≡ ok w)
            × (l ≡ front ++ w ∷ [])
      last_ok [] ne = absurd (ne refl)
      last_ok (v ∷ l) ne = last_of_ok v l

  -- what the handler answers for a first error, and leaves in the state of the request
  pub record IsReport (error : InputError) (after : Result Answer × RequestState)
      (state : RequestState) : Type 0 where
    pub message : String
    pub value : Json
    pub answer : after ≡ (
      ok (record {
        status_code = 422;
        content =
            ("code", num 422)
            ∷ ("msg", text ("Invalid request parameters: " <> message))
            ∷ ("data", value)
            ∷ [];
      }),
      (
        "__request_validation_exception__",
        ("code", num 422)
            ∷ ("msg", text ("Invalid request parameters: " <> message))
            ∷ ("data", value)
            ∷ [],
      )
          ∷ state,
    )
    pub hidden : development ≡ false → value ≡ null
    pub first :
        (error.type == "enum") ≡ false
        → IsFirst error (table_text validation_messages error.type error.msg) message

  -- For errors of invalid input, at least one, each with a place, and those of an enum with the
  -- expected values in their context unless it is empty, the handler answers with the status 422 and
  -- leaves the content in the state of the request. Unless the first error is of an enum, the message
  -- is that of JSON that cannot be parsed, or the text that the table has for the error's type, or the
  -- error's own where it has none; in the development environment with the last part of the place and
  -- the input. Outside of it the content has no data.
  pub validation_exception_handler-answers :
      (errors_json : List InputError → Json) (error : InputError) (errors : List InputError)
      (state : RequestState)
      → All IsReported (error ∷ errors)
      → IsReport error
          (validation_exception_handler is_status str_of development errors_json
            (error ∷ errors)
            state)
          state
  unfolding validation_exception_handler ◌>>=◌ with_messages
  validation_exception_handler-answers errors_json error errors state (h, hs) =
      let (msg, c, one, own) = with_message_ok error (custom_message error.type) refl h in
      let (es, rest) = with_messages_ok errors hs in
      let (m, first, placed) = first_message_ok error msg c es h.0 in
      let all = record error { msg = msg; ctx_error = c } ∷ es in
      record {
        message = m;
        value = if development then obj (field "errors" (errors_json all) end) else null;
        answer = rw (one, rest, first) refl;
        hidden = λ production. rw production refl;
        first = λ other. subst (λ t. IsFirst error t m) (own other) placed;
      }
