-- ===== src/File/Handle.antt =====
-- The constructor, `close` and `seek` of src/reactor/linux/file_impl.cpp. The system calls are a
-- parameter; `thrown e` is the exception with the text of errno `e`. A path is its bytes; flags and
-- mode are their words.
use Prim.Native.Nat.{bit_or}
use dumbo.Base.{ℕ, List, ℤ, pos, negsuc}
use dumbo.Base.Results.{Result, ok, err, thrown}

-- O_DIRECT on x86
abbrev pub o_direct : ℕ
o_direct = 16384

pub record Posix : Type 1 where
  pub State : Type 0
  pub sys_open : State → List ℕ → ℕ → ℕ → ℤ × State
  pub sys_close : State → ℤ → ℤ × State
  pub sys_lseek : State → ℤ → ℤ → ℕ → ℤ × State
  pub errno : State → ℕ

pub record File : Type 0 where
  pub fd : ℤ
  pub path : List ℕ

module _ (posix : Posix) where
  -- A negative answer of a call is an exception with the errno that the call left.
  pub checked_call : {A : Type 0} → (ℤ → A) → ℤ × posix.State → posix.State × Result A
  checked_call f (pos n, s) = (s, ok (f (pos n)))
  checked_call f (negsuc n, s) = (s, err (thrown (posix.errno s)))

  opened : List ℕ → ℤ → File
  opened path fd = record { fd = fd; path = path }

  pub open_file : List ℕ → ℕ → ℕ → posix.State → posix.State × Result File
  unfolding checked_call opened
  open_file path flags mode s =
      checked_call (opened path) (posix.sys_open s path (bit_or flags o_direct) mode)

  pub close_file : File → posix.State → posix.State × Result (Unit {0})
  unfolding checked_call
  close_file f s = checked_call (λ r. tt) (posix.sys_close s f.fd)

  pub seek : File → ℤ → ℕ → posix.State → posix.State × Result ℤ
  unfolding checked_call
  seek f position whence s = checked_call (λ r. r) (posix.sys_lseek s f.fd position whence)

  pub fsync : File → posix.State → posix.State
  fsync f s = s

  pub fdsync : File → posix.State → posix.State
  fdsync f s = s
