-- ===== src/Log/Files/Rotation.antt =====
-- What a write of src/log/file_writer.cpp leaves: the lines of each file, and the record at the end.
use deprecated_tcode.Common.{ℕ, ◌+◌, ◌≤◌, true, false, List, [], ◌∷◌, ◌++◌, ◌≡◌, arith, length, All}
use deprecated_tcode.Time.Calendar.Forms.{SystemTime}
use deprecated_tcode.Log.Files.{Line, LogFile, FileWriter, new_writer}

-- The lines of all the files, in the order in which the files were opened.
abbrev pub contents : List LogFile → List Line
contents [] = []
contents (f ∷ fs) = contents fs ++ f.lines

abbrev pub IsShort : LogFile → Type 0
IsShort f = length f.lines ≤ 65536

-- The newest file has `n` lines.
abbrev pub Newest : List LogFile → ℕ → Type 0
Newest [] n = ⊥
Newest (f ∷ fs) n = length f.lines ≡ n

-- Each file has at most 65536 lines, and while a file is open the count is that of the newest one.
pub record IsCounting (w : FileWriter) : Type 0 where
  pub short : All IsShort w.files
  pub counted : w.is_open ≡ true → Newest w.files w.line_count

-- A line goes to the end of the newest file, which has room for it.
record IsPut (r : Line) (n : ℕ) (fs gs : List LogFile) : Type 0 where
  short : All IsShort gs
  newest : Newest gs (n + 1)
  kept : contents gs ≡ contents fs ++ r ∷ []

-- What a write that succeeds leaves: the line stands at the end of the files `fs`, in an open file
-- of the day of the write.
pub record IsLogged (st : SystemTime) (r : Line) (fs : List LogFile) (w : FileWriter) : Type 0 where
  pub is_counting : IsCounting w
  pub is_open : w.is_open ≡ true
  pub of_day : w.current_day ≡ st.day
  pub holds : contents w.files ≡ contents fs ++ r ∷ []

-- The line is dropped, and the next write opens a file.
pub record IsDropped (fs : List LogFile) (w : FileWriter) : Type 0 where
  pub is_counting : IsCounting w
  pub is_closed : w.is_open ≡ false
  pub holds : w.files ≡ fs

pub new_writer-IsCounting : IsCounting new_writer
new_writer-IsCounting = record { short = tt; counted = λ e. absurd (ground (arith, e)) }
