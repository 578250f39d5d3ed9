-- ===== src/Socket.antt =====
-- The sending side of the sockets of source/llbase: mcast_socket.cpp and tcp_socket.cpp. A buffer of
-- bytes is seen as the messages that it was loaded with and their bytes' number; `send` is the
-- operating system's, and the code drops what it does not take.
use nitek.Base.{ℕ, ◌+◌, ◌*◌, List, [], ◌∷◌, ◌++◌, ltb, if◌then◌else◌}
use nitek.Base.Run.{Result, ok, fault, exits}

-- What is loaded and not yet sent, how many bytes that is, and what `send` has been given.
pub record TxSocket (T : Type 0) : Type 0 where
  pub loaded : List T
  pub i_tx_next : ℕ
  pub wire : List T

abbrev pub buffer_size : ℕ
buffer_size = 64 * 1024 * 1024

module _ {T : Type 0} where
  -- `load_tx` of a message of `len` bytes. The index must stay below the buffer's size.
  unfoldable pub load_tx : ℕ → T → TxSocket T → Result (TxSocket T)
  load_tx len u s =
      if ltb (s.i_tx_next + len) buffer_size
      then ok (record s { loaded = s.loaded ++ (u ∷ []); i_tx_next = s.i_tx_next + len })
      else fault exits

  -- The sending half of `tx_and_rx`, which empties the buffer whatever `send` says.
  unfoldable pub tx_and_rx : TxSocket T → TxSocket T
  tx_and_rx s = record { loaded = []; i_tx_next = 0; wire = s.wire ++ s.loaded }
