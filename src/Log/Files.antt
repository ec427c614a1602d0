-- ===== src/Log/Files.antt =====
-- src/log/file_writer.cpp outside Windows: the files that `write` opens, writes and deletes. The clock,
-- whether `fopen` succeeds and whether the directory can be read are arguments. Of the directory the
-- files of this writer are modelled.
pub mod Survivors
pub mod Rotation
use deprecated_tcode.Common.{
  ℕ, ◌+◌, ◌*◌, ◌%◌, ◌^◌, Bool, true, false, not, ◌&&◌, ◌||◌, ◌==◌, ltb, List, [], ◌∷◌, ◌++◌, Option,
  none, some, if◌then◌else◌, ◌≡◌,
}
use deprecated_tcode.Time.Calendar.Forms.{SystemTime}

-- A formatted record.
abbrev pub Line : Type 0
Line = List ℕ

-- A file that was opened for writing: the parts of its name, and what was written to it.
pub record LogFile : Type 0 where
  pub date : SystemTime
  pub number : ℕ
  pub lines : List Line

-- `is_open` says that `_file` is not nullptr; `files` are those in the directory that were opened, the
-- newest first.
pub record FileWriter : Type 0 where
  pub is_open : Bool
  pub current_day : ℕ
  pub line_count : ℕ
  pub day_file_count : ℕ
  pub files : List LogFile

-- The constructor.
abbrev pub new_writer : FileWriter
new_writer = record {
  is_open = false;
  current_day = 0;
  line_count = 0;
  day_file_count = 0;
  files = [];
}

-- The condition under which `write` opens another file.
unfoldable pub needs_file : SystemTime → FileWriter → Bool
needs_file st w = not w.is_open || (not (w.current_day == st.day) || ltb 65535 w.line_count)

-- The date at the start of a file's name, "%04d%02d%02d"; the order of these strings is that of the
-- numbers, up to the year 9999.
abbrev pub date_number : SystemTime → ℕ
date_number t = t.year * 10000 + t.month * 100 + t.day

-- `std::string( ent->d_name ) < delete_before`.
unfoldable pub is_older : SystemTime → LogFile → Bool
is_older today f = ltb (date_number f.date) (date_number today)

unfoldable pub remove_older : SystemTime → List LogFile → List LogFile
remove_older today [] = []
remove_older today (f ∷ fs) =
    let rest = remove_older today fs in if is_older today f then rest else f ∷ rest

-- `_delete_old_logs`; `none` when the directory cannot be read.
unfoldable pub delete_old_logs : Option SystemTime → FileWriter → FileWriter
delete_old_logs none w = w
delete_old_logs (some today) w = record w { files = remove_older today w.files }

-- What `write` does first when the day is another one.
unfoldable pub start_day : (listed : Option SystemTime) → SystemTime → FileWriter → FileWriter
start_day listed st w =
    if w.current_day == st.day then w else record (delete_old_logs listed w) { day_file_count = 0 }

-- Whether a file has the name that is made of a time and a number; the time is to the second.
unfoldable pub has_name : SystemTime → ℕ → LogFile → Bool
has_name now number f =
    (date_number f.date == date_number now)
    && (f.date.hour == now.hour)
    && (f.date.minute == now.minute)
    && (f.date.second == now.second)
    && (f.number == number)

-- `fopen( ... , "wb" )` empties a file that has the name already.
unfoldable pub truncate : SystemTime → ℕ → List LogFile → List LogFile
truncate now number [] = []
truncate now number (f ∷ fs) =
    let rest = truncate now number fs in if has_name now number f then rest else f ∷ rest

-- `_create_log_file` closes the file; `some now` when `fopen` succeeds, at that time.
unfoldable pub create_log_file : Option SystemTime → FileWriter → FileWriter
create_log_file none w = record w { is_open = false }
create_log_file (some now) w = record w {
  is_open = true;
  files =
      (record { date = now; number = w.day_file_count; lines = [] })
      ∷ truncate now w.day_file_count w.files;
}

abbrev pub put_line : Line → List LogFile → List LogFile
put_line r [] = []
put_line r (f ∷ fs) = record f { lines = f.lines ++ r ∷ [] } ∷ fs

-- The rest of `write`, once a file is open.
unfoldable pub write_line : Line → FileWriter → FileWriter
write_line r w = record w { line_count = (w.line_count + 1) % 2 ^ 32; files = put_line r w.files }

unfoldable pub begin_file : SystemTime → FileWriter → FileWriter
begin_file st w = record w {
  day_file_count = (w.day_file_count + 1) % 2 ^ 32;
  line_count = 0;
  current_day = st.day;
}

-- `file_writer::write` of a record, at the time `st`.
unfoldable pub file_write :
    (listed opened : Option SystemTime) → SystemTime → Line → FileWriter → FileWriter
file_write listed opened st r w =
    if needs_file st w
    then elim opened [
      | none ↦ create_log_file none (start_day listed st w)
      | some now ↦ write_line r (begin_file st (create_log_file (some now) (start_day listed st w)))
    ]
    else write_line r w
