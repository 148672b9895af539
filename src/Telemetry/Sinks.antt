-- ===== src/Telemetry/Sinks.antt =====
-- The sinks of include/order_book/telemetry.hpp and src/telemetry_ws.cpp. The stream of a file and the
-- server's sockets are outside the program: whether the file opens, the port is bound and a client is
-- still open are arguments.
-- `FileSink`, with the bytes of its file.
use orderbook_c.Base.{Bool, List, [], if◌then◌else◌, map, not, ℕ, ◌++◌, ◌∷◌}

pub record FileSink : Type 0 where
  pub good : Bool
  pub bytes : List ℕ

-- The file is truncated when it opens.
unfoldable pub open_file : Bool → FileSink
open_file opens = record { good = opens; bytes = [] }

-- A stream that is not good writes nothing.
unfoldable pub file_write_line : List ℕ → FileSink → FileSink
file_write_line line k = if k.good then record k { bytes = k.bytes ++ (line ++ 10 ∷ []) } else k

-- A client of the WebSocket server, with the messages sent to it.
pub record Client : Type 0 where
  pub is_open : Bool
  pub received : List (List ℕ)

pub record WsSink : Type 0 where
  pub listening : Bool
  pub clients : List Client

-- The constructor, with what `listen` says; clients come later.
unfoldable pub make_ws_sink : Bool → WsSink
make_ws_sink bound = record { listening = bound; clients = [] }

abbrev send_text : List ℕ → Client → Client
send_text msg c = if c.is_open then record c { received = c.received ++ msg ∷ [] } else c

unfoldable pub ws_write_line : List ℕ → WsSink → WsSink
ws_write_line line k =
    if not k.listening then k else record k { clients = map (send_text line) k.clients }

-- The lines of one sink, one call each.
unfoldable pub file_write_all : List (List ℕ) → FileSink → FileSink
file_write_all [] k = k
file_write_all (l ∷ ls) k = file_write_all ls (file_write_line l k)
