-- ===== src/Netqw/Arrivals.antt =====
-- NetQW_Thread_DoReceive of src/netqw.c over all three states of a connection.
use qwnet_library.Huffman
use qwnet_library.Netqw.{NetQw}
use qwnet_library.Netqw.Delayed.{Ordered}
use qwnet_library.Prelude.{Bool, true, false, if◌then◌else◌}

pub if-Ordered : (b : Bool) (x y : NetQw) → Ordered x → Ordered y → Ordered (if b then x else y)
if-Ordered true x y h k = h
if-Ordered false x y h k = k
