-- ===== src/Files.antt =====
-- utils/file_ops.py: the name of an upload, its check, and the copy. The moment is an argument, and
-- the file on disk is a parameter, whose calls may raise.
pub mod Copy
use git_hub_repository_resea.Base.{
  ℕ, zero, suc, String, Bool, true, false, not, ◌&&◌, List, [], ◌∷◌, ◌==◌, one_of, truthy, ltb,
  if◌then◌else◌,
}
use git_hub_repository_resea.Errors.{Error, forbidden_error, request_error}
use git_hub_repository_resea.Exec.{
  Exec, Result, ok, raise, pure, throw, ◌>>=◌, ◌>>◌, try_except, try_finally,
}
use git_hub_repository_resea.Text.{◌<>◌, is_char, split, lower, left, drop, replace, show, size}

abbrev last_part : List String → String
last_part [] = ""
last_part (s ∷ []) = s
last_part (s ∷ t ∷ rest) = last_part (t ∷ rest)

-- filename.split(".")[-1].lower()
unfoldable pub file_ext : String → String
unfolding split lower
file_ext filename = lower (last_part (split (is_char b'.') filename))

unfoldable pub build_filename : ℕ → String → String
unfolding file_ext replace
build_filename timestamp filename =
    let ext = file_ext filename in
    replace ("." <> ext) ("_" <> show timestamp) filename <> "." <> ext

pub data FileType : Type 0 where
  image video : FileType

-- The UPLOAD settings, which core/conf.py does not declare: the code as it stands raises an
-- AttributeError where it reads one.
pub record UploadSettings : Type 0 where
  pub image_ext_include : List String
  pub image_size_max : ℕ
  pub video_ext_include : List String
  pub video_size_max : ℕ
  pub read_size : ℕ

abbrev check_file : List String → ℕ → String → String → String → ℕ → Result (Unit {0})
check_file extensions size_max bad_ext too_large ext size =
    if not (one_of ext extensions)
    then raise (forbidden_error bad_ext)
    else if ltb size_max size
    then raise (forbidden_error too_large)
    else ok tt

abbrev verify_type : UploadSettings → FileType → String → ℕ → Result (Unit {0})
verify_type settings image ext size =
    check_file settings.image_ext_include settings.image_size_max "此图片格式暂不支持" "图片超出最大限制，请重新选择" ext
      size
verify_type settings video ext size =
    check_file settings.video_ext_include settings.video_size_max "此视频格式暂不支持" "视频超出最大限制，请重新选择" ext
      size

unfoldable pub file_verify : UploadSettings → FileType → String → ℕ → Result (Unit {0})
unfolding file_ext
file_verify settings file_type filename size =
    let ext = file_ext filename in
    if truthy ext
    then verify_type settings file_type ext size
    else raise (forbidden_error "未知的文件类型")

module _ {D : Type 0} (write : String → Exec D Unit) where
  -- The loop that reads a piece and writes it until a piece is empty, on what is still to be read; the
  -- result says whether the loop has ended within the number of passes.
  unfoldable pub copy : ℕ → ℕ → String → Exec D Bool
  unfolding left drop
  copy zero read_size pending = pure false
  copy (suc passes) read_size pending =
      let content = left read_size pending in
      let rest = copy passes read_size (drop read_size pending) in
      if truthy content then (write content >>= λ u. rest) else pure true

  -- One pass more than the file has bytes is enough.
  unfoldable pub upload_file :
      (String → Exec D Unit) → Exec D Unit → ℕ → UploadSettings → String → String → Exec D String
  unfolding copy build_filename size
  upload_file create close timestamp settings filename content =
      let name = build_filename timestamp filename in
      try_finally
        (try_except
          (create name >> copy (suc (size content)) settings.read_size content >> pure name)
          (λ e. throw (request_error "上传文件失败")))
        close
