-- ===== src/Recording.antt =====
-- internal/recording/recorder.go: the file name of a recording, and the recorder with its
-- `closed` flag. The OGG writer is third-party code: what its calls answer comes as an argument. So does the file
-- system.
pub mod FileName
pub mod Factory
pub mod Recorder
use homebrain.Prelude.{
  ℕ, ◌+◌, Bool, true, false, not, ◌&&◌, ◌||◌, Option, none, some, List, [], ◌∷◌, ◌++◌, ltb, leb,
  ◌==◌, if◌then◌else◌, length, take, is_empty,
}
use homebrain.Text.{Text, codes, text_eq, has_prefix}

-- unicode.IsLetter(r) || unicode.IsDigit(r), for an r up to unicode.MaxASCII
abbrev pub is_alphanumeric : ℕ → Bool
is_alphanumeric c =
    (leb b'0' c && leb c b'9') || (leb b'A' c && leb c b'Z') || (leb b'a' c && leb c b'z')

abbrev pub is_allowed : ℕ → Bool
is_allowed c = is_alphanumeric c || c == b'-' || c == b'.'

-- The loop of sanitizeSessionID, with `previousUnderscore`.
sanitize_from : Bool → Text → Text
sanitize_from previous [] = []
sanitize_from previous (c ∷ s) = elim (is_allowed c) [
  | true ↦ c ∷ sanitize_from false s
  | false ↦ let rest = sanitize_from true s in if previous then rest else b'_' ∷ rest
]

abbrev pub is_trimmed : ℕ → Bool
is_trimmed c = c == b'.' || c == b'_' || c == b'-'

-- strings.Trim(s, "._-")
pub trim_left : Text → Text
trim_left [] = []
trim_left (c ∷ s) = let rest = trim_left s in if is_trimmed c then rest else c ∷ s

pub trim_right : Text → Text
trim_right [] = []
trim_right (c ∷ s) =
    let rest = trim_right s in if is_empty rest && is_trimmed c then [] else c ∷ rest

abbrev pub max_name : ℕ
max_name = 128

-- sanitizeSessionID
unfoldable pub sanitize_session_id : Text → Text
unfolding sanitize_from trim_left trim_right
sanitize_session_id value =
    let result = trim_right (trim_left (sanitize_from false value)) in
    if is_empty result || text_eq result (codes "..")
    then codes "session"
    else if ltb max_name (length result)
    then take max_name result
    else result

-- fmt.Sprintf("%s_%s.ogg", time, sanitizeSessionID(sessionID))
unfoldable pub file_name : Text → Text → Text
unfolding sanitize_session_id
file_name time session_id = time ++ (codes "_" ++ (sanitize_session_id session_id ++ codes ".ogg"))

-- ensureContained, behind filepath.Rel: the path relative to the directory, where there is one.
unfoldable pub ensure_contained : (Text → Bool) → Option Text → Bool
ensure_contained is_absolute none = false
ensure_contained is_absolute (some relative) =
    if text_eq relative (codes "..") || has_prefix relative (codes "../") || is_absolute relative
    then false
    else true

-- What the file system and the OGG writer answer to New: the recordings directory by its absolute
-- path, what filepath.Join and filepath.Rel make of it, and whether the file can be created.
pub record Files : Type 0 where
  pub directory : Option Text
  pub join_path : Text → Text → Text
  pub relative : Text → Text → Option Text
  pub is_absolute : Text → Bool
  pub created : Text → Bool

pub data Opened : Type 0 where
  opened : Text → Opened  -- a recorder, by its path
  directory_unknown path_escapes not_created : Opened

-- OGGFactory.New, at a time that is formatted already.
unfoldable pub new : Files → Text → Text → Opened
unfolding file_name ensure_contained
new files time session_id = elim files.directory [
  | none ↦ directory_unknown
  | some dir ↦
      let path = files.join_path dir (file_name time session_id) in
      if not (ensure_contained files.is_absolute (files.relative dir path))
      then path_escapes
      else if files.created path
      then opened path
      else not_created
]

pub data WriteResult : Type 0 where
  written already_closed packet_required : WriteResult
  write_failed : ℕ → WriteResult

-- oggRecorder, with the packets that its writer has taken and how often the writer was closed.
pub record OggRecorder : Type 0 where
  pub closed : Bool
  pub packets : List ℕ
  pub writer_closed : ℕ

-- The two methods that change it, with what the writer answers.
unfoldable pub write_rtp : Option ℕ → Option ℕ → OggRecorder → OggRecorder × WriteResult
write_rtp packet failure r = if r.closed then (r, already_closed) else elim packet [
  | none ↦ (r, packet_required)
  | some p ↦ elim failure [
    | none ↦ (record r { packets = r.packets ++ p ∷ [] }, written)
    | some e ↦ (r, write_failed e)
  ]
]

unfoldable pub close : Option ℕ → OggRecorder → OggRecorder × Option ℕ
close failure r =
    if r.closed
    then (r, none)
    else (record r { closed = true; writer_closed = r.writer_closed + 1 }, failure)

pub data Call : Type 0 where
  writes : Option ℕ → Option ℕ → Call
  closes : Option ℕ → Call

abbrev pub new_recorder : OggRecorder
new_recorder = record { closed = false; packets = []; writer_closed = 0 }

-- The mutex makes the calls of all goroutines one sequence.
unfoldable pub run : List Call → OggRecorder → OggRecorder
unfolding write_rtp close
run [] r = r
run (writes packet failure ∷ calls) r = run calls (write_rtp packet failure r).0
run (closes failure ∷ calls) r = run calls (close failure r).0
