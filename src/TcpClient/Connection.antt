-- ===== src/TcpClient/Connection.antt =====
-- How Src/Network/TCPClient.cpp makes its connection, asks for it and ends it. The client of the game calls
-- `connectToServer` only.
use rtype_ci_cd.Common.{ℕ, Bool, true, false, if◌then◌else◌}
use rtype_ci_cd.Common.Strings.{Text}

-- What a read came back with: `would_block` is an error of its own.
pub data ReadError : Type 0 where
  no_error would_block other_error : ReadError

-- What is used of the socket of asio, and of its resolver. A result `false` is an exception or an error code.
pub record Port (S : Type 0) : Type 0 where
  pub is_open : S → Bool
  -- `resolve` and `asio::connect` to the server.
  pub connect : Text → ℕ → S → Bool × S
  pub set_non_blocking : Bool → S → Bool × S
  -- `read_some` into no byte.
  pub read_none : S → ReadError × S
  pub close : S → S

-- The members that the connection has.
pub record Connection (S : Type 0) : Type 0 where
  pub socket : S
  pub server_ip : Text
  pub port : ℕ
  pub socket_non_blocking_set : Bool

unfoldable pub new_connection : {S : Type 0} → Text → ℕ → S → Connection S
new_connection server_ip port closed = record {
  socket = closed;
  server_ip = server_ip;
  port = port;
  socket_non_blocking_set = false;
}

module _ {S : Type 0} (io : Port S) where
  -- `if (_socket.is_open()) _socket.close()`
  unfoldable pub close_if_open : S → S
  close_if_open s = if io.is_open s then io.close s else s

  unfoldable pub make_non_blocking : Connection S → Bool × Connection S
  make_non_blocking c =
      if c.socket_non_blocking_set
      then (true, c)
      else (let (ok, s) = io.set_non_blocking true c.socket in
          if ok
          then (true, record c { socket = s; socket_non_blocking_set = true })
          else (false, record c { socket = s }))

  unfoldable pub connect_to_server : Connection S → Bool × Connection S
  connect_to_server c =
      let (ok, s) = io.connect c.server_ip c.port c.socket in
      let connected = record c { socket = s } in
      if ok then make_non_blocking connected else (false, connected)

  unfoldable pub tcp_disconnect : Connection S → Connection S
  tcp_disconnect c = record c { socket = close_if_open c.socket; socket_non_blocking_set = false }

  -- What `checkConnection` makes of the read, once the socket blocks again.
  unfoldable pub judge : ReadError → S → Bool × S
  judge no_error s = (true, s)
  judge would_block s = (true, s)
  judge other_error s = (false, io.close s)

  unfoldable pub probe : S → Bool × S
  probe s =
      let (ok, quick) = io.set_non_blocking true s in
      let (result, read) = io.read_none quick in
      let (ok', slow) = io.set_non_blocking false read in
      if ok then (if ok' then judge result slow else (false, slow)) else (false, quick)

  -- The flag is not changed, although the socket blocks afterwards.
  unfoldable pub check_connection : Connection S → Bool × Connection S
  check_connection c =
      if io.is_open c.socket
      then (let (alive, s) = probe c.socket in (alive, record c { socket = s }))
      else (false, c)

  -- `~TCPClient`.
  unfoldable pub destroy : Connection S → Connection S
  destroy c = record c { socket = close_if_open c.socket }
