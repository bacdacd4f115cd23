-- ===== src/Recording/Factory.antt =====
-- Where the recorder factory puts its files.
use homebrain.Prelude.{
  Bool, true, false, some, [], ◌∷◌, ◌++◌, ◌≡◌, refl, arith, All, All-append, if◌then◌else◌,
}
use homebrain.Text.{Text, codes, has_prefix}
use homebrain.Recording.{
  Files, opened, not_created, sanitize_session_id, file_name, ensure_contained, new,
}
use homebrain.Recording.FileName.{IsNameByte, sanitize_session_id-IsBaseName}

-- The form of a time: it begins with a digit and holds letters, digits and dots.
pub record IsStamp (time : Text) : Type 0 where
  pub bytes : All IsNameByte time
  pub year : has_prefix time (codes "2") ≡ true

file_name-IsNameByte : (time id : Text) → All IsNameByte time → All IsNameByte (file_name time id)
unfolding file_name
file_name-IsNameByte time id h =
    let name = sanitize_session_id id in
    All-append IsNameByte time (codes "_" ++ (name ++ codes ".ogg")) h (
      refl,
      All-append IsNameByte name (codes ".ogg") (sanitize_session_id-IsBaseName id).bytes
          (refl, (refl, (refl, (refl, tt)))),
    )

file_name-year :
    (time id : Text)
    → has_prefix time (codes "2") ≡ true
    → has_prefix (file_name time id) (codes "2") ≡ true
unfolding file_name
file_name-year [] id h = absurd (ground arith)
file_name-year (c ∷ time) id h = ground arith

contained :
    (is_absolute : Text → Bool) (name : Text)
    → has_prefix name (codes "2") ≡ true
    → is_absolute name ≡ false
    → ensure_contained is_absolute (some name) ≡ true
unfolding ensure_contained
contained is_absolute [] h a = absurd (ground arith)
contained is_absolute (c ∷ name) h a = ground (arith, h, a)

-- New refuses no recording for its path: where the directory has an absolute path, the file is made
-- in it under the name of the time and the session, whatever the session id. filepath.Rel gives the
-- name back that filepath.Join put behind a directory, and a name of letters, digits, `-`, `.` and
-- `_` is not absolute.
pub new_opens :
    (files : Files) (dir time id : Text)
    → files.directory ≡ some dir
    → IsStamp time
    → ((name : Text)
        → All IsNameByte name
        → has_prefix name (codes "2") ≡ true
        → files.relative dir (files.join_path dir name) ≡ some name)
    → ((name : Text) → All IsNameByte name → files.is_absolute name ≡ false)
    → let path = files.join_path dir (file_name time id) in
      new files time id ≡ (if files.created path then opened path else not_created)
unfolding new
new_opens files dir time id known stamp relative absolute =
    let name = file_name time id in
    let bytes = file_name-IsNameByte time id stamp.bytes in
    let year = file_name-year time id stamp.year in
    rw
      (
        known,
        new,
        relative name bytes year,
        contained files.is_absolute name year (absolute name bytes),
      )
      refl
