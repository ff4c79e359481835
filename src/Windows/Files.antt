-- ===== src/Windows/Files.antt =====
-- src/reactor/msvc/msvc_file_impl.cpp, less `process_batch`, and the flags of
-- include/dumbo/v1/reactor/msvc/msvc_file_impl.hpp. A path is its bytes.
pub mod Flags
mod Tests
use Prim.Native.Nat.{bit_or}
use dumbo.Base.{
  ℕ, zero, suc, bit_and, List, Bool, true, false, not, ◌==◌, ◌||◌, if◌then◌else◌, ℤ, pos, negsuc,
}
use dumbo.Base.Results.{Stop, Result, ok, err, thrown, terminated}
use dumbo.Windows.{
  Overlapped, zeroed_overlapped, set_offset, dword, Call, create_file, associate, close_handle,
  read_file, write_file, aligned_malloc, Win, Os, sys, terminate, transfer,
}

-- The bits of FileFlags; APPEND and NONE are not looked at.
abbrev rdonly : ℕ
rdonly = 1

abbrev wronly : ℕ
wronly = 2

abbrev rdwr : ℕ
rdwr = 4

abbrev truncate : ℕ
truncate = 8

abbrev create : ℕ
create = 32

abbrev cloexec : ℕ
cloexec = 64

abbrev excl : ℕ
excl = 128

-- The constants of the Windows headers.
abbrev generic_read : ℕ
generic_read = 2147483648

abbrev generic_write : ℕ
generic_write = 1073741824

abbrev create_new : ℕ
create_new = 1

abbrev open_always : ℕ
open_always = 4

abbrev truncate_existing : ℕ
truncate_existing = 5

abbrev file_share_read : ℕ
file_share_read = 1

abbrev file_attribute_normal : ℕ
file_attribute_normal = 128

abbrev file_flag_delete_on_close : ℕ
file_flag_delete_on_close = 67108864

abbrev file_flag_random_access : ℕ
file_flag_random_access = 268435456

abbrev file_flag_no_buffering : ℕ
file_flag_no_buffering = 536870912

abbrev file_flag_overlapped : ℕ
file_flag_overlapped = 1073741824

abbrev file_flag_write_through : ℕ
file_flag_write_through = 2147483648

-- `to_bool(flags & flag)`
pub to_bool : ℕ → Bool
to_bool f = not (f == 0)

pub has_flag : ℕ → ℕ → Bool
unfolding to_bool
has_flag flags flag = to_bool (bit_and flags flag)

-- `if (test) word |= bits`
or_if : Bool → ℕ → ℕ → ℕ
or_if test bits word = if test then bit_or word bits else word

pub get_access : ℕ → ℕ
unfolding has_flag or_if
get_access flags =
    or_if (has_flag flags rdwr) (bit_or generic_write generic_read)
      (or_if (has_flag flags wronly) generic_write (or_if (has_flag flags rdonly) generic_read 0))

pub get_disposition : ℕ → ℕ
unfolding has_flag
get_disposition flags =
    if has_flag flags truncate
    then truncate_existing
    else (if has_flag flags create
        then (if has_flag flags excl then create_new else open_always)
        else 0)

pub get_share_mode : ℕ → ℕ
get_share_mode flags = file_share_read

pub get_flags_and_attributes : ℕ → ℕ
unfolding has_flag or_if
get_flags_and_attributes flags =
    bit_or (or_if (has_flag flags cloexec) file_flag_delete_on_close file_attribute_normal) (
      bit_or (bit_or (bit_or file_flag_no_buffering file_flag_overlapped) file_flag_random_access)
        file_flag_write_through)

pub record File : Type 0 where
  pub fd : ℤ
  pub path : List ℕ

-- `int64_t`s are words of 64 bits; `whence` is not looked at.
pub seek : File → ℕ → ℕ → ℕ
seek f position whence = position

-- `message` and `operation` are the addresses of the locals, here and in `read` and `write`.
pub prepared : ℕ → ℕ → Overlapped
unfolding zeroed_overlapped set_offset
prepared message offset = set_offset offset (record zeroed_overlapped { message = message })

-- A call that does not start ends the program.
abbrev pub file_error : ℕ → Stop
file_error code = terminated

module _ (win : Win) where
  -- The result of CreateIoCompletionPort is not looked at.
  open_answer : ℤ → List ℕ → ℤ × Os win → Os win × Result File
  unfolding sys terminate
  open_answer port path (pos fd, o) =
      ((sys win o (associate (pos fd) port)).1, ok (record { fd = pos fd; path = path }))
  open_answer port path (negsuc n, o) = terminate win o

  -- The constructor; `port` is the completion port of the reactor's poller.
  pub open_file : ℤ → List ℕ → ℕ → Os win → Os win × Result File
  unfolding open_answer sys
  open_file port path flags o = open_answer port path (
      sys win o (
        create_file path (get_access flags) (get_share_mode flags) (get_disposition flags)
          (get_flags_and_attributes flags)))

  closed : ℤ × Os win → Os win × Result (Unit {0})
  unfolding terminate
  closed (pos zero, o) = terminate win o
  closed (pos (suc n), o) = (o, ok tt)
  closed (negsuc n, o) = (o, ok tt)

  pub close_file : File → Os win → Os win × Result (Unit {0})
  unfolding closed sys
  close_file f o = elim f.fd [
    | pos fd ↦ closed (sys win o (close_handle (pos fd)))
    | negsuc n ↦ (o, ok tt)
  ]

  unfoldable pub read : File → ℕ → ℕ → ℕ → ℕ → ℕ → Os win → Os win × Result ℕ
  unfolding prepared transfer dword
  read f message operation buffer offset size =
      transfer win file_error
        (read_file f.fd buffer (dword size) operation (prepared message offset)) message operation

  unfoldable pub write : File → ℕ → ℕ → ℕ → ℕ → ℕ → Os win → Os win × Result ℕ
  unfolding prepared transfer dword
  write f message operation buffer offset size =
      transfer win file_error
        (write_file f.fd buffer (dword size) operation (prepared message offset)) message operation

  -- They do nothing.
  pub fsync : File → Os win → Os win
  fsync f o = o

  pub fdsync : File → Os win → Os win
  fdsync f o = o

  allocated : ℤ × Os win → Os win × Result ℕ
  allocated (pos zero, o) = (o, err (thrown (win.errno o.kernel)))
  allocated (pos (suc n), o) = (o, ok (suc n))
  allocated (negsuc n, o) = (o, err (thrown (win.errno o.kernel)))

  -- The address of the buffer; an exception of `rise_error` has no code, here 0.
  pub allocate_dma_buffer : ℕ → Os win → Os win × Result ℕ
  unfolding allocated sys
  allocate_dma_buffer size o =
      if not (size == 0)
      then allocated (sys win o (aligned_malloc size 512))
      else (o, err (thrown 0))
