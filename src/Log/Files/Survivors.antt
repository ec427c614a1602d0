-- ===== src/Log/Files/Survivors.antt =====
-- The files that a write of src/log/file_writer.cpp leaves in the directory.
use deprecated_tcode.Common.{
  ℕ, Bool, true, false, not, ◌&&◌, ◌==◌, List, [], ◌∷◌, Option, none, some, if◌then◌else◌, ◌≡◌,
  refl, sym, ap, ◌∙◌, arith, All, Bool-cases, inl, inr,
}
use deprecated_tcode.Time.Calendar.Forms.{SystemTime}
use deprecated_tcode.Log.Files.{
  LogFile, FileWriter, needs_file, is_older, remove_older, delete_old_logs, start_day, has_name,
  truncate,
}

-- The files that pass a test.
abbrev pub keep : (LogFile → Bool) → List LogFile → List LogFile
keep p [] = []
keep p (f ∷ fs) = let rest = keep p fs in if p f then f ∷ rest else rest

-- The files that a write deletes: of an earlier day, when the day is another one than at the last
-- file and the directory can be read.
abbrev pub is_deleted : (listed : Option SystemTime) → SystemTime → FileWriter → LogFile → Bool
is_deleted none st w f = false
is_deleted (some today) st w f = not (w.current_day == st.day) && is_older today f

-- The file that a write empties: with the name of the one that it opens.
abbrev pub is_emptied : (opened : Option SystemTime) → SystemTime → FileWriter → LogFile → Bool
is_emptied none st w f = false
is_emptied (some now) st w f =
    has_name now (if w.current_day == st.day then w.day_file_count else 0) f

-- The files that are left by a write that needs another file, and by one that does not.
abbrev pub survivors : (listed opened : Option SystemTime) → SystemTime → FileWriter → List LogFile
survivors listed opened st w =
    if needs_file st w
    then keep (λ f. not (is_deleted listed st w f) && not (is_emptied opened st w f)) w.files
    else w.files

keep_all : (fs : List LogFile) → keep (λ f. true) fs ≡ fs
keep_all [] = refl
keep_all (f ∷ fs) = ap (λ r. f ∷ r) (keep_all fs)

pub keep_same :
    (p q : LogFile → Bool) (fs : List LogFile) → ((f : LogFile) → p f ≡ q f) → keep p fs ≡ keep q fs
keep_same p q [] e = refl
keep_same p q (f ∷ fs) e = ground (arith, e f, keep_same p q fs e)

keep-keep :
    (p q : LogFile → Bool) (fs : List LogFile) → keep p (keep q fs) ≡ keep (λ f. q f && p f) fs
keep-keep p q [] = refl
keep-keep p q (f ∷ fs) = ground (arith, keep-keep p q fs)

pub All-keep :
    (P : LogFile → Type 0) (p : LogFile → Bool) (fs : List LogFile) → All P fs → All P (keep p fs)
All-keep P p [] h = tt
All-keep P p (f ∷ fs) h = elim (Bool-cases (p f)) [
  | inl e ↦ rw e (h.0, All-keep P p fs h.1)
  | inr e ↦ rw e (All-keep P p fs h.1)
]

remove_older_lem :
    (today : SystemTime) (fs : List LogFile)
    → remove_older today fs ≡ keep (λ f. not (is_older today f)) fs
unfolding remove_older
remove_older_lem today [] = refl
remove_older_lem today (f ∷ fs) = ground (arith, remove_older_lem today fs)

truncate_lem :
    (now : SystemTime) (number : ℕ) (fs : List LogFile)
    → truncate now number fs ≡ keep (λ f. not (has_name now number f)) fs
unfolding truncate
truncate_lem now number [] = refl
truncate_lem now number (f ∷ fs) = ground (arith, truncate_lem now number fs)

pub start_day-files :
    (listed : Option SystemTime) (st : SystemTime) (w : FileWriter)
    → (start_day listed st w).files ≡ keep (λ f. not (is_deleted listed st w f)) w.files
unfolding start_day delete_old_logs
start_day-files none st w = elim (Bool-cases (w.current_day == st.day)) [
  | inl same ↦ rw same (sym (keep_all w.files))
  | inr other ↦ rw other (sym (keep_all w.files))
]
start_day-files (some today) st w = elim (Bool-cases (w.current_day == st.day)) [
  | inl same ↦ rw same (sym (keep_all w.files))
  | inr other ↦ rw other (remove_older_lem today w.files)
]

start_day-count :
    (listed : Option SystemTime) (st : SystemTime) (w : FileWriter)
    → (start_day listed st w).day_file_count
      ≡ (if w.current_day == st.day then w.day_file_count else 0)
unfolding start_day
start_day-count listed st w = ground arith

-- The files behind the one that is opened.
pub left_behind :
    (listed : Option SystemTime) (now st : SystemTime) (w : FileWriter)
    → truncate now (start_day listed st w).day_file_count (start_day listed st w).files
      ≡ keep (λ f. not (is_deleted listed st w f) && not (is_emptied (some now) st w f)) w.files
left_behind listed now st w =
    let number = if w.current_day == st.day then w.day_file_count else 0 in
    rw (start_day-files listed st w, start_day-count listed st w)
      (truncate_lem now number (keep (λ f. not (is_deleted listed st w f)) w.files)
        ∙ keep-keep (λ f. not (has_name now number f)) (λ f. not (is_deleted listed st w f))
            w.files)
