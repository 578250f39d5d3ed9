-- ===== src/TcpServer/Tests.antt =====
-- The server's sets of sockets after a poll.
use nitek.Base.{refl, true, false, List, [], ◌∷◌, All}
use nitek.TcpServer.{
  TcpServer, Event, Connection, element_does_not_exist, push_if_absent, handle_event, handle_events,
  accept_all, poll,
}
use nitek.TcpServer.Laws.{IsValid, Keeps, IsRecorded}
use nitek.TcpServer.Polls.{poll-IsRecorded}

abbrev server : TcpServer
server = record { listener_socket = 3; rx_sockets = 5 ∷ []; tx_sockets = []; dx_sockets = [] }

server-IsValid : IsValid server
server-IsValid = record { rx = (tt, tt); tx = tt; dx = tt }

-- A new connection, and a socket that can be read and written.
abbrev events : List Event
events =
    record { socket = 3; is_in = true; is_out = false; is_lost = false }
    ∷ record { socket = 5; is_in = true; is_out = true; is_lost = false }
    ∷ []

abbrev connections : List Connection
connections =
    record { socket = 6; is_non_blocking = true; is_no_delay = true; is_added = true } ∷ []

abbrev server_after : TcpServer
server_after = record server { rx_sockets = 5 ∷ 6 ∷ []; tx_sockets = 5 ∷ [] }

poll-IsRecorded_example :
    IsValid server_after × Keeps server server_after × All (IsRecorded server_after) events
unfolding poll handle_events handle_event accept_all push_if_absent element_does_not_exist
poll-IsRecorded_example = poll-IsRecorded events connections server server_after server-IsValid refl
