-- ===== src/Log/Tests.antt =====
-- The dumps at concrete inputs.
use deprecated_tcode.Common.{ℕ, ◌+◌, ◌≤◌, ◌≡◌, refl, List, [], ◌∷◌, arith, length}
use deprecated_tcode.Log.{
  hex_of, raw_to_hex_string, separator, dump_loop, write_dump, length-write_dump,
}
use deprecated_tcode.Common.{false, none, some}
use deprecated_tcode.Time.Calendar.Forms.{SystemTime}
use deprecated_tcode.Log.Files.{
  FileWriter, new_writer, needs_file, is_older, remove_older, delete_old_logs, start_day, has_name,
  truncate, create_log_file, write_line, begin_file, file_write,
}
use deprecated_tcode.Log.Dump.{unhex, strip, write_dump_complete}

-- Five bytes, of which the fourth is followed by two spaces.
abbrev five : List ℕ
five = 0 ∷ 255 ∷ 16 ∷ 171 ∷ 7 ∷ []

write_dump-five :
    write_dump five
    ≡ 10 ∷ 48 ∷ 48 ∷ 32 ∷ 70 ∷ 70 ∷ 32 ∷ 49 ∷ 48 ∷ 32 ∷ 65 ∷ 66 ∷ 32 ∷ 32 ∷ 48 ∷ 55 ∷ 32 ∷ 10 ∷ []
unfolding write_dump dump_loop hex_of separator
write_dump-five = refl

length-write_dump_example : length (write_dump five) + 2 ≤ 2048
length-write_dump_example = length-write_dump five

write_dump_complete_example :
    (strip (write_dump five) ≡ raw_to_hex_string five) × (unhex (strip (write_dump five)) ≡ five)
write_dump_complete_example =
    write_dump_complete five
      (omega arith, (omega arith, (omega arith, (omega arith, (omega arith, tt))))) (omega arith)

-- One second before and at midnight.
abbrev evening : SystemTime
evening = record {
  year = 2016;
  month = 2;
  day = 29;
  hour = 23;
  minute = 59;
  second = 59;
  milliseconds = 0;
}

abbrev morning : SystemTime
morning = record {
  year = 2016;
  month = 3;
  day = 1;
  hour = 0;
  minute = 0;
  second = 0;
  milliseconds = 0;
}

-- Two records of an evening, and one of the next day, when no file can be opened.
abbrev two_lines : FileWriter
two_lines =
    file_write none none evening (8 ∷ [])
      (file_write none (some evening) evening (7 ∷ []) new_writer)

two_lines-files :
    two_lines.files ≡ record { date = evening; number = 0; lines = (7 ∷ []) ∷ (8 ∷ []) ∷ [] } ∷ []
unfolding file_write needs_file start_day delete_old_logs create_log_file truncate write_line
    begin_file
two_lines-files = refl

file_write-refused : (file_write none none morning (9 ∷ []) two_lines).is_open ≡ false
unfolding file_write needs_file start_day delete_old_logs create_log_file truncate write_line
    begin_file
file_write-refused = refl

-- The next day deletes the file of the evening.
next_day :
    (file_write (some morning) (some morning) morning (9 ∷ []) two_lines).files
    ≡ record { date = morning; number = 0; lines = (9 ∷ []) ∷ [] } ∷ []
unfolding file_write needs_file start_day delete_old_logs remove_older is_older create_log_file
    truncate write_line begin_file
next_day = refl

-- A file that is opened at midnight for a record of the evening is emptied by the next record, in
-- the same second.
at_midnight :
    (file_write
      (some morning)
      (some morning)
      morning
      (8 ∷ [])
      (file_write none (some morning) evening (7 ∷ []) new_writer)).files
    ≡ record { date = morning; number = 0; lines = (8 ∷ []) ∷ [] } ∷ []
unfolding file_write needs_file start_day delete_old_logs remove_older is_older create_log_file
    truncate has_name write_line begin_file
at_midnight = refl
