-- ===== src/TcpServer.antt =====
-- source/llbase/tcp_server.cpp: which sockets the server reads, writes and has lost. A socket is known
-- by its number. What `epoll_wait` and `accept` give, and whether the system calls on a new socket
-- succeed, are arguments.
pub mod Laws
pub mod Polls
mod Tests
use nitek.Base.{ℕ, Bool, true, false, ◌&&◌, List, [], ◌∷◌, ◌++◌, ◌==◌, if◌then◌else◌}
use nitek.Base.Run.{Result, ok, fault, exits}

pub record TcpServer : Type 0 where
  pub listener_socket : ℕ
  pub rx_sockets : List ℕ
  pub tx_sockets : List ℕ
  pub dx_sockets : List ℕ

-- An event of a socket: EPOLLIN, EPOLLOUT, and one of EPOLLERR, EPOLLHUP and EPOLLRDHUP.
pub record Event : Type 0 where
  pub socket : ℕ
  pub is_in : Bool
  pub is_out : Bool
  pub is_lost : Bool

-- A connection that `accept` gives, as the socket that is made for it: are `set_non_blocking`,
-- `set_no_delay` and `epoll_add` successful?
pub record Connection : Type 0 where
  pub socket : ℕ
  pub is_non_blocking : Bool
  pub is_no_delay : Bool
  pub is_added : Bool

-- source/llbase/macros.h
unfoldable pub element_does_not_exist : List ℕ → ℕ → Bool
element_does_not_exist [] x = true
element_does_not_exist (y ∷ ys) x =
    let rest = element_does_not_exist ys x in if y == x then false else rest

-- The sockets with `x` at their end, if it is not there.
unfoldable pub push_if_absent : ℕ → List ℕ → List ℕ
push_if_absent x xs = if element_does_not_exist xs x then xs ++ (x ∷ []) else xs

abbrev pub is_connection : TcpServer → Event → Bool
is_connection s e = e.is_in && (e.socket == s.listener_socket)

-- A round of the loop over the events; the Boolean is `has_new_connection`.
unfoldable pub handle_event : Event → Bool × TcpServer → Bool × TcpServer
handle_event e (new, s) = if is_connection s e then (true, s) else (
  new,
  record s {
    rx_sockets = if e.is_in then push_if_absent e.socket s.rx_sockets else s.rx_sockets;
    tx_sockets = if e.is_out then push_if_absent e.socket s.tx_sockets else s.tx_sockets;
    dx_sockets = if e.is_lost then push_if_absent e.socket s.dx_sockets else s.dx_sockets;
  },
)

unfoldable pub handle_events : List Event → Bool × TcpServer → Bool × TcpServer
handle_events [] r = r
handle_events (e ∷ es) r = handle_events es (handle_event e r)

-- The loop over the new connections, until `accept` has none.
unfoldable pub accept_all : List Connection → TcpServer → Result TcpServer
accept_all [] s = ok s
accept_all (c ∷ cs) s =
    let rest = accept_all cs (record s { rx_sockets = push_if_absent c.socket s.rx_sockets }) in
    if c.is_non_blocking && (c.is_no_delay && c.is_added) then rest else fault exits

unfoldable pub poll : List Event → List Connection → TcpServer → Result TcpServer
poll events connections s =
    let (new, s') = handle_events events (false, s) in
    if new then accept_all connections s' else ok s'
