-- ===== src/Windows/Streams.antt =====
-- `read` and `write` of files in msvc_file_impl.cpp and of connections in msvc_socket_impl.cpp.
pub mod Polled
mod Tests
use native.Mathlib.Nat.{add-mul-mod_self_right}
use dumbo.Base.{ℕ, ◌+◌, ◌*◌, ◌^◌, ◌<◌, ◌%◌, ◌≡◌, refl, sym, ap, ◌∙◌, arith, List, ◌∷◌, ◌++◌}
use dumbo.Base.Results.{Stop, Result}
use dumbo.Windows.{Call, read_file, write_file, dword, Win, Os, sys, transfer}
use dumbo.Windows.Transfer.{Ended, transfer-Ended, transfer-calls}
use dumbo.Windows.Files.{File, file_error, prepared}
use dumbo.Windows.Sockets.{Connection, local_overlapped, socket_error}

pub data Direction : Type 0 where
  reads writes : Direction

-- A file with the offset, or a connection.
pub data Stream : Type 0 where
  file : File → ℕ → Stream
  connection : Connection → Stream

-- The call that starts the operation, and the stop that its error stands for.
abbrev pub call_of : Direction → Stream → ℕ → ℕ → ℕ → ℕ → Call
call_of reads (file f offset) message operation buffer size =
    read_file f.fd buffer size operation (prepared message offset)
call_of writes (file f offset) message operation buffer size =
    write_file f.fd buffer size operation (prepared message offset)
call_of reads (connection c) message operation buffer size =
    read_file c.connection_fd buffer size operation (local_overlapped message)
call_of writes (connection c) message operation buffer size =
    write_file c.connection_fd buffer size operation (local_overlapped message)

abbrev pub error_of : Stream → ℕ → Stop
error_of (file f offset) = file_error
error_of (connection c) = socket_error

dword_lem : (n k : ℕ) → dword (n + k * 2 ^ 32) ≡ dword n
unfolding dword
dword_lem n k = add-mul-mod_self_right n k (2 ^ 32)

dword_small : (n : ℕ) → n < 2 ^ 32 → dword n ≡ n
unfolding dword
dword_small n h = omega (arith, h)

module _ (win : Win) where
  abbrev pub perform : Direction → Stream → ℕ → ℕ → ℕ → ℕ → Os win → Os win × Result ℕ
  perform reads (file f offset) message operation buffer size =
      dumbo.Windows.Files.read win f message operation buffer offset size
  perform writes (file f offset) message operation buffer size =
      dumbo.Windows.Files.write win f message operation buffer offset size
  perform reads (connection c) message operation buffer size =
      dumbo.Windows.Sockets.read win c message operation buffer size
  perform writes (connection c) message operation buffer size =
      dumbo.Windows.Sockets.write win c message operation buffer size

  -- `read` and `write` of a file and of a connection start one operation and wait for it. They return
  -- the size that the operation came to, and throw its error; if it cannot be started, a file ends
  -- the program and a connection throws; and if resources lack, they never return.
  pub stream_lem :
      (d : Direction) (s : Stream) (message operation buffer size : ℕ) (o : Os win)
      → (r : Os win × Result ℕ)
      → Ended win
          (error_of s)
          message
          operation
          (sys win o (call_of d s message operation buffer (dword size)))
          r
      → perform d s message operation buffer size o ≡ r
  unfolding dumbo.Windows.Files.read dumbo.Windows.Files.write dumbo.Windows.Sockets.read
      dumbo.Windows.Sockets.write
  stream_lem reads (file f offset) message operation buffer size o r e =
      transfer-Ended win file_error _ message operation o r e
  stream_lem writes (file f offset) message operation buffer size o r e =
      transfer-Ended win file_error _ message operation o r e
  stream_lem reads (connection c) message operation buffer size o r e =
      transfer-Ended win socket_error _ message operation o r e
  stream_lem writes (connection c) message operation buffer size o r e =
      transfer-Ended win socket_error _ message operation o r e

  performed :
      (d : Direction) (s : Stream) (message operation buffer size : ℕ) (o : Os win)
      → perform d s message operation buffer size o
        ≡ transfer win
            (error_of s)
            (call_of d s message operation buffer (dword size))
            message
            operation
            o
  unfolding dumbo.Windows.Files.read dumbo.Windows.Files.write dumbo.Windows.Sockets.read
      dumbo.Windows.Sockets.write
  performed reads (file f offset) message operation buffer size o = refl
  performed writes (file f offset) message operation buffer size o = refl
  performed reads (connection c) message operation buffer size o = refl
  performed writes (connection c) message operation buffer size o = refl

  -- The size is cut to 32 bits: a transfer of `n` bytes, fewer than 2 ^ 32, and k * 2 ^ 32 more makes
  -- as its first call one for `n` bytes, and comes to what a transfer of `n` bytes comes to. In
  -- particular one of 2 ^ 32 bytes asks for none.
  pub cut_size :
      (d : Direction) (s : Stream) (message operation buffer n k : ℕ) (o : Os win)
      → n < 2 ^ 32
      → ((rest : List Call) × ((perform d s message operation buffer (n + k * 2 ^ 32) o).0.calls
            ≡ o.calls ++ call_of d s message operation buffer n ∷ rest))
        × (perform d s message operation buffer (n + k * 2 ^ 32) o
            ≡ perform d s message operation buffer n o)
  cut_size d s message operation buffer n k o h =
      let call = λ (size : ℕ). call_of d s message operation buffer size in
      let (rest, made) = transfer-calls win (error_of s) (call n) message operation o in
      let cut : (m : ℕ)
          → dword m ≡ n
          → perform d s message operation buffer m o
            ≡ transfer win (error_of s) (call n) message operation o =
        λ m e.
          performed d s message operation buffer m o
          ∙ ap (λ (size : ℕ). transfer win (error_of s) (call size) message operation o) e in
      let more = cut (n + k * 2 ^ 32) (dword_lem n k ∙ dword_small n h) in
      ((rest, ap (λ r. r.0.calls) more ∙ made), more ∙ sym (cut n (dword_small n h)))
