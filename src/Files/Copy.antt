-- ===== src/Files/Copy.antt =====
-- The copy of an upload, and the names and files that pass.
use Prim.Native.String.{[] as nil, ◌∷◌ as ◌∷ᶜ◌}
use git_hub_repository_resea.Base.{
  ℕ, zero, suc, ◌<◌, ◌≤◌, String, ◌≡◌, ◌↔◌, refl, sym, ap, ◌∙◌, Bool, true, false, List, ◌==◌,
  one_of, truthy, Bool-cases, inl, inr, arith, eq_iff,
}
use git_hub_repository_resea.Exec.{Exec, ok, ◌>>=◌}
use git_hub_repository_resea.Exec.Hoare.{bind_ok}
use git_hub_repository_resea.Text.{◌<>◌, size, left, drop, contains, show}
use git_hub_repository_resea.Text.Laws.{<>_assoc, <>_nil, left-drop, size-drop, replace_absent}
use git_hub_repository_resea.Files.{
  file_ext, build_filename, FileType, image, video, UploadSettings, file_verify, copy,
}

-- A write that returns has appended its text.
pub record IsAppending {D : Type 0} (write : String → Exec D Unit) (contents : D → String)
    : Type 0 where
  pub contents-write :
      (s : String) (d : D) → (write s d).0 ≡ ok tt → contents (write s d).1 ≡ contents d <> s

empty_left : (n : ℕ) (s : String) → 0 < n → truthy (left n s) ≡ false → s ≡ ""
unfolding left size
empty_left zero s positive h = absurd (omega (arith, positive))
empty_left (suc n) nil positive h = refl
empty_left (suc n) (c ∷ᶜ s) positive h =
    let blank : ((c ∷ᶜ left n s) == "") ≡ true = ground arith in
    absurd (omega (arith, ap size ((eq_iff (c ∷ᶜ left n s) "").0 blank)))

not_empty_size : (n : ℕ) (s : String) → truthy (left n s) ≡ true → 0 < size s
unfolding left size
not_empty_size zero s h = cc h
not_empty_size (suc n) nil h = cc h
not_empty_size (suc n) (c ∷ᶜ s) h = omega arith

module _ {D : Type 0} {write : String → Exec D Unit} {contents : D → String}
    (A : IsAppending write contents) where
  -- With pieces of at least one character, the loop ends within one pass more than the text has
  -- characters: unless a write raises, it returns after the last piece, and the file has the whole
  -- text behind what it had.
  pub copy-contents :
      (passes read_size : ℕ) (pending : String) (d : D) {ended : Bool}
      → 0 < read_size
      → size pending < passes
      → (copy write passes read_size pending d).0 ≡ ok ended
      → (ended ≡ true)
        × (contents (copy write passes read_size pending d).1 ≡ contents d <> pending)
  unfolding copy
  copy-contents zero read_size pending d positive enough returned = absurd (omega (arith, enough))
  copy-contents (suc passes) read_size pending d {ended} positive enough returned =
      elim (Bool-cases (truthy (left read_size pending))) [
        | inr blank ↦ rw blank (
          cc (blank, returned),
          sym (<>_nil (contents d))
              ∙ ap (λ t. contents d <> t) (sym (empty_left read_size pending positive blank)),
        )
        | inl more ↦
            let piece = left read_size pending in
            let later = drop read_size pending in
            let went : ((write piece >>= λ u. copy write passes read_size later) d).0 ≡ ok ended =
              cc (more, returned) in
            let (u, written, returned1, same) = bind_ok (write piece) _ d went in
            let (done, whole) =
              copy-contents passes read_size later (write piece d).1 positive
                (omega (
                  arith,
                  enough,
                  positive,
                  size-drop read_size pending,
                  not_empty_size read_size pending more,
                ))
                returned1 in
            (
              done,
              rw more (
                  ap contents same
                  ∙ whole
                  ∙ ap (λ t. t <> later) (A.contents-write piece d written)
                  ∙ <>_assoc (contents d) piece later
                  ∙ ap (λ t. contents d <> t) (left-drop read_size pending)),
            )
      ]

-- If a dot with the extension in lower case does not occur in the file's name, as when the extension
-- is in upper case, the new name does not depend on the moment: it is the old one with the extension
-- once more, so that a later upload takes the place of an earlier one.
pub build_filename-absent :
    (filename : String) (timestamp : ℕ)
    → contains filename ("." <> file_ext filename) ≡ false
    → build_filename timestamp filename ≡ filename <> "." <> file_ext filename
unfolding build_filename
build_filename-absent filename timestamp absent =
    ap (λ t. t <> "." <> file_ext filename)
      (replace_absent ("." <> file_ext filename) ("_" <> show timestamp) filename absent)

abbrev extensions_of : UploadSettings → FileType → List String
extensions_of settings image = settings.image_ext_include
extensions_of settings video = settings.video_ext_include

abbrev size_max_of : UploadSettings → FileType → ℕ
size_max_of settings image = settings.image_size_max
size_max_of settings video = settings.video_size_max

-- A file passes the check exactly if it has an extension, the extension is one of those of its type,
-- and its size is at most that of its type.
pub file_verify_lem :
    (settings : UploadSettings) (file_type : FileType) (filename : String) (size : ℕ)
    → (file_verify settings file_type filename size ≡ ok tt) ↔ (
        (truthy (file_ext filename) ≡ true)
        × (one_of (file_ext filename) (extensions_of settings file_type) ≡ true)
        × (size ≤ size_max_of settings file_type))
unfolding file_verify
file_verify_lem settings image filename size = ground arith
file_verify_lem settings video filename size = ground arith
