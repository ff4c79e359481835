-- ===== src/Windows/Tests.antt =====
-- The theorems of the Windows port over scripted calls.
use dumbo.Base.{◌+◌, ◌*◌, ◌^◌, ◌≡◌, arith, List, [], ◌∷◌, ◌++◌, pos}
use dumbo.IpAddress.{in_addr}
use dumbo.Windows.{Call, get_accept_ex, sys}
use dumbo.Windows.Sockets.{ServerSocket, accept}
use dumbo.Windows.Sockets.Accepting.{Finding, accept_lem}
use dumbo.Windows.Streams.{writes, Stream, file, call_of, perform, cut_size}
use dumbo.Windows.Scripted.{win, at_start}

abbrev a_file : Stream
a_file = file (record { fd = pos 5; path = [] }) 4096

cut_size_example :
    ((rest : List Call) × ((perform win writes a_file 70 71 80
          (0 + 1 * 2 ^ 32)
          (at_start [])).0.calls
        ≡ [] ++ call_of writes a_file 70 71 80 0 ∷ rest))
    × (perform win writes a_file 70 71 80 (0 + 1 * 2 ^ 32) (at_start [])
        ≡ perform win writes a_file 70 71 80 0 (at_start []))
cut_size_example = cut_size win writes a_file 70 71 80 0 1 (at_start []) (omega arith)

abbrev listener : ServerSocket
listener = record { ip_address = in_addr 0; ip_port = 8080; socket_fd = pos 4 }

accept_lem_example :
    Finding win
      (pos 9)
      listener
      70
      71
      (sys win (at_start []) (get_accept_ex (pos 4)))
      (accept win (pos 9) listener 70 71 (at_start []))
accept_lem_example = accept_lem win (pos 9) listener 70 71 (at_start [])
