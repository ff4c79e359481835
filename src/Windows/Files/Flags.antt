-- ===== src/Windows/Files/Flags.antt =====
-- How the flags of msvc_file_impl.hpp open a file.
use dumbo.Base.{ℕ, ◌≡◌, refl, ap, ◌⊎◌, inl, arith, List, Bool, false, ◌||◌, ℤ, pos, negsuc, ◌<◌}
use dumbo.Base.Results.{err, terminated}
use dumbo.Windows.{create_file, Win, Os, sys, terminate}
use dumbo.Windows.Files.{
  truncate, create, has_flag, get_access, get_disposition, get_share_mode, get_flags_and_attributes,
  open_answer, open_file,
}

-- TRUNCATE or CREATE is given.
abbrev pub names_disposition : ℕ → Bool
names_disposition flags = has_flag flags truncate || has_flag flags create

disposition-none : (flags : ℕ) → names_disposition flags ≡ false → get_disposition flags ≡ 0
unfolding get_disposition
disposition-none flags e = ground arith

-- The documented failure of CreateFile: a disposition is a number from 1 to 5.
abbrev pub RejectsDisposition : Win → Type 0
RejectsDisposition win =
    (s : win.State) (path : List ℕ) (access share_mode disposition attributes : ℕ)
    → (disposition < 1) ⊎ (5 < disposition)
    → (win.call s (create_file path access share_mode disposition attributes)).0 ≡ negsuc 0

open_answer-fails :
    (win : Win) (port : ℤ) (path : List ℕ) (a : ℤ × Os win)
    → a.0 ≡ negsuc 0
    → open_answer win port path a ≡ (a.1, err terminated)
unfolding open_answer terminate
open_answer-fails win port path (pos n, o) e = cc
open_answer-fails win port path (negsuc n, o) e = refl

-- If CreateFile rejects what is no disposition, as documented, the constructor of a file ends the
-- program for all flags with neither TRUNCATE nor CREATE: an existing file cannot just be opened.
pub open_existing_lem :
    (win : Win) (port : ℤ) (path : List ℕ) (flags : ℕ) (o : Os win)
    → RejectsDisposition win
    → names_disposition flags ≡ false
    → (open_file win port path flags o).1 ≡ err terminated
unfolding open_file sys
open_existing_lem win port path flags o rejects e =
    ap (λ a. a.1)
      (open_answer-fails win port path
        (sys win o (
          create_file path (get_access flags) (get_share_mode flags) (get_disposition flags)
            (get_flags_and_attributes flags)))
        (rejects o.kernel path (get_access flags) (get_share_mode flags) (get_disposition flags)
          (get_flags_and_attributes flags) (inl (omega (arith, disposition-none flags e)))))
