-- ===== src/Windows/Files/Tests.antt =====
-- How files are opened over a CreateFile that rejects what is no disposition.
use dumbo.Base.{ℕ, ◌≡◌, refl, arith, [], ◌&&◌, true, ltb, if◌then◌else◌, ℤ, pos, negsuc}
use dumbo.Base.Results.{ok}
use dumbo.Windows.{Call, create_file, Win}
use dumbo.Windows.Files.{has_flag, to_bool, get_disposition, open_file, open_answer}
use dumbo.Windows.Files.Flags.{RejectsDisposition}

-- CreateFile as documented.
abbrev create_answer : Call → ℤ
create_answer c = elim c [
  | create_file path access share_mode disposition attributes ↦
      if ltb 0 disposition && ltb disposition 6 then pos 3 else negsuc 0
  | _ ↦ pos 1
]

abbrev strict : Win
strict = record {
  State = ℕ;
  call = λ s c. (create_answer c, s);
  last_error = λ s. s;
  errno = λ s. s;
  completion = λ s a. record { status = true; size = 512; error_code = 0 };
}

strict-RejectsDisposition : RejectsDisposition strict
strict-RejectsDisposition = λ s path access share_mode disposition attributes p. ground arith

-- With CREATE there is a disposition.
opens_with_create :
    (open_file strict (pos 9) [] 36 (record { kernel = 87; calls = [] })).1
    ≡ ok (record { fd = pos 3; path = [] })
unfolding open_file open_answer get_disposition has_flag to_bool
opens_with_create = refl
