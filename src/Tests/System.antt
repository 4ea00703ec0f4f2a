-- ===== src/Tests/System.antt =====
-- The POSIX sockets, the clock and the terminal at concrete answers of the system.
use qwnet_library.Linux.{sys_printf, Timeval, sys_int_time}
use qwnet_library.Linux.Clock.{micros, sys_int_time-counts}
use qwnet_library.Linux.Printing.{ArePrintable, sys_printf-ArePrintable}
use qwnet_library.Net.Descriptors.{Process, domain_of, sys_net_create_socket}
use qwnet_library.Net.Opening.{
  leaked, SocketMade, sys_net_create_socket-SocketMade, CreatedFor,
  sys_net_create_socket-CreatedFor,
}
use qwnet_library.Net.Posix.{
  na_loopback, na_ipv4, na_ipv6, af_inet, SysSocket, Sockaddr, sockaddr_in,
}
use qwnet_library.Net.Sockets.{Network}
use qwnet_library.Net.Wire.{Answered, sys_net_send-sys_net_receive_from}
use qwnet_library.Prelude.{
  ◌+◌, ◌-◌, ◌*◌, ◌≤◌, ◌<◌, min, ◌≡◌, refl, true, false, none, some, [], ◌∷◌, arith, length,
  replicate,
}

abbrev udp_socket : SysSocket
udp_socket = record { s = 5; domain = af_inet }

abbrev a_sender : Sockaddr
a_sender = sockaddr_in 0x3930 (10 ∷ 0 ∷ 0 ∷ 7 ∷ [])

sys_net_send-sys_net_receive_from_example :
    Answered udp_socket
      (record { addrtype = na_loopback; addr = replicate 18 0 })
      (record { r = 20; would_block = false })
      a_sender
      (λ target. record { r = 20; would_block = false })
sys_net_send-sys_net_receive_from_example =
    sys_net_send-sys_net_receive_from udp_socket
      (record { addrtype = na_loopback; addr = replicate 18 0 })
      (record { r = 20; would_block = false }) a_sender
      (λ target. record { r = 20; would_block = false }) refl (omega arith, refl) (omega arith)

abbrev a_process : Process
a_process = record { blocks = 3; descriptors = 0 ∷ 1 ∷ [] }

abbrev no_netdata : Network
no_netdata = record { netdata = none; handles = 0 ∷ 1 ∷ []; lost = [] }

sys_net_create_socket-SocketMade_example :
    SocketMade
      (leaked (domain_of na_ipv6) true (some 4) false)
      a_process
      (sys_net_create_socket na_ipv6 true (some 4) false a_process)
sys_net_create_socket-SocketMade_example =
    sys_net_create_socket-SocketMade na_ipv6 true (some 4) false a_process

sys_net_create_socket-CreatedFor_example :
    CreatedFor no_netdata a_process (sys_net_create_socket na_ipv4 true (some 4) true a_process)
sys_net_create_socket-CreatedFor_example =
    sys_net_create_socket-CreatedFor na_ipv4 true (some 4) a_process no_netdata refl

-- A quarter of a second before a full second, and half a second after it.
abbrev early_reading : Timeval
early_reading = record { tv_sec = 1200000000; tv_usec = 750000 }

abbrev late_reading : Timeval
late_reading = record { tv_sec = 1200000001; tv_usec = 500000 }

sys_int_time-counts_example :
    let begun = sys_int_time early_reading 0 in
    let went_on = sys_int_time late_reading (begun.1) in
    (begun.0 < 1000000)
    × (begun.0 + (micros late_reading - micros early_reading) ≡ went_on.0)
    × (went_on.1 ≡ begun.1)
sys_int_time-counts_example =
    sys_int_time-counts early_reading late_reading
      (record { after_epoch = omega arith; small = omega arith; whole = omega arith })
      (record { after_epoch = omega arith; small = omega arith; whole = omega arith }) (omega arith)

sys_printf-ArePrintable_example :
    ArePrintable (sys_printf false (72 ∷ 27 ∷ 255 ∷ 0 ∷ 9 ∷ []))
    × (length (sys_printf false (72 ∷ 27 ∷ 255 ∷ 0 ∷ 9 ∷ [])) ≤ 4 * min 2047 5)
sys_printf-ArePrintable_example =
    sys_printf-ArePrintable false (72 ∷ 27 ∷ 255 ∷ 0 ∷ 9 ∷ [])
      (omega arith, (omega arith, (omega arith, (omega arith, (omega arith, tt)))))
