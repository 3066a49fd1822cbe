-- ===== src/Socket/Transfer.antt =====
-- socket/socketaa_worker.h: the two calls that move bytes between the socket and a buffer.
use httpaa.Base.{
  ℕ, zero, suc, ◌+◌, ◌&&◌, List, [], ◌∷◌, ◌++◌, Option, none, some, ltb, length, take, drop,
  if◌then◌else◌,
}
use httpaa.Stringaa.Defs.{Stringaa, bytes}

-- What the two functions return: a number of bytes, SOCKETAA_SOCKET_ERROR (-1),
-- SOCKETAA_ERROR_RECV_SHUTDOWN (-2) or SOCKETAA_ERROR_SEND_SHUTDOWN (-3).
pub data Bytes : Type 0 where
  count : ℕ → Bytes
  socket_error recv_shutdown send_shutdown : Bytes

-- What `recv` does: it fails, or it puts these bytes into the buffer.
abbrev pub received : Stringaa → Option (List ℕ) → Bytes × Stringaa
received s_recv none = (Bytes.socket_error, s_recv)
received s_recv (some []) = (Bytes.recv_shutdown, s_recv)
received s_recv (some (c ∷ l)) =
    let w = s_recv.write_pos in
    let n = length (c ∷ l) in
    (
      Bytes.count n,
      record s_recv {
        buf = some (take w (bytes s_recv) ++ ((c ∷ l) ++ drop (w + n) (bytes s_recv)));
        write_pos = w + n;
      },
    )

unfoldable pub worker_recv : Option (List ℕ) → Stringaa → Bytes × Stringaa
worker_recv answer s_recv =
    if ltb s_recv.write_pos s_recv.buf_size then received s_recv answer else (Bytes.count 0, s_recv)

-- What `send` does: it fails, or it takes this many bytes.
abbrev pub sent : Stringaa → Option ℕ → Bytes × Stringaa
sent s_send none = (Bytes.socket_error, s_send)
sent s_send (some zero) = (Bytes.send_shutdown, s_send)
sent s_send (some (suc n)) =
    (Bytes.count (suc n), record s_send { read_pos = s_send.read_pos + suc n })

unfoldable pub worker_send : Option ℕ → Stringaa → Bytes × Stringaa
worker_send answer s_send =
    if ltb s_send.write_pos s_send.buf_size && ltb s_send.read_pos s_send.write_pos
    then sent s_send answer
    else (Bytes.count 0, s_send)
