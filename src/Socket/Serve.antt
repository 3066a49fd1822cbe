-- ===== src/Socket/Serve.antt =====
-- socket/socketaa_worker.h: the loop of `socketaa_worker`, one round after another.
use httpaa.Base.{ℕ, zero, suc, ◌+◌, Bool, true, false, List, [], ◌∷◌, Option, if◌then◌else◌}
use httpaa.Stringaa.Defs.{Stringaa}
use httpaa.Socket.Transfer.{Bytes, worker_recv, worker_send}

-- The flags of `struct socket_work_struct` that the loop uses, the two buffers, and how often the
-- socket has been closed.
pub record Work : Type 0 where
  pub is_select : Bool
  pub is_recv : Bool
  pub is_send : Bool
  pub is_recv_shutdown : Bool
  pub is_send_shutdown : Bool
  pub p_recv : Stringaa
  pub p_send : Stringaa
  pub closes : ℕ

-- `closesocket(s_conn); work->is_select = 0;`
abbrev pub close : Work → Work
close work = record work { is_select = false; closes = work.closes + 1 }

-- The outcome of a round's system calls: of `select`, and of the transfer behind it.
pub data Outcome : Type 0 where
  ready : Option (List ℕ) → Option ℕ → Outcome
  timeout select_error : Outcome

-- The handler of the port, `workeraa_func` with WORKERAA_FUNC_RECV_DATA and
-- WORKERAA_FUNC_SEND_DATA: whether it returns SOCKETAA_ERROR, and the work behind it.
module _ (recv_data send_data : Work → Bool × Work) where
  abbrev recv_done : Bool × Work → Work
  recv_done (is_error, work) = if is_error then close work else work

  unfoldable pub check_recv : Work → Bytes → Work
  check_recv work (Bytes.count zero) = close work
  check_recv work (Bytes.count (suc n)) = recv_done (recv_data (record work { is_recv = true }))
  check_recv work Bytes.socket_error = close work
  check_recv work Bytes.recv_shutdown = record work { is_recv_shutdown = true }
  check_recv work Bytes.send_shutdown = work

  -- The first chain of tests: the last one compares with SOCKETAA_ERROR_RECV_SHUTDOWN.
  abbrev pub check_bytes_send : Work → Bytes → Work
  check_bytes_send work (Bytes.count zero) = close work
  check_bytes_send work (Bytes.count (suc n)) = record work { is_send = true }
  check_bytes_send work Bytes.socket_error = close work
  check_bytes_send work Bytes.recv_shutdown = record work { is_send_shutdown = true }
  check_bytes_send work Bytes.send_shutdown = work

  -- The last test of all.
  abbrev pub check_sent : Work → Bytes → Work
  check_sent work (Bytes.count n) = record work { is_send = true }
  check_sent work Bytes.socket_error = record work { is_recv = true }
  check_sent work Bytes.recv_shutdown = record work { is_send = true }
  check_sent work Bytes.send_shutdown = record work { is_send = true }

  unfoldable pub check_send : Work → Bytes → Work
  check_send work moved = check_sent (check_bytes_send work moved) moved

  unfoldable pub recv_round : Option (List ℕ) → Work → Work
  recv_round answer work =
      let (moved, p_recv) = worker_recv answer work.p_recv in
      check_recv (record work { p_recv = p_recv }) moved

  abbrev pub send_behind : Option ℕ → Work → Work
  send_behind answer work =
      let (moved, p_send) = worker_send answer work.p_send in
      check_send (record work { p_send = p_send }) moved

  unfoldable pub send_round : Option ℕ → Work → Work
  send_round answer work =
      let (is_error, work1) = send_data work in
      send_behind answer (if is_error then close work1 else work1)

  -- One round. The socket is ready only for what has been asked for; where nothing has, there is
  -- nothing to do.
  unfoldable pub round : Outcome → Work → Work
  round timeout work =
      close
        (if work.is_send then record work { is_send = false } else record work { is_recv = false })
  round select_error work =
      record (if work.is_send
        then record work { is_send = false }
        else record work { is_recv = false }) { is_select = false }
  round (ready bytes_recv bytes_send) work =
      if work.is_send
      then send_round bytes_send (record work { is_send = false })
      else if work.is_recv
      then recv_round bytes_recv (record work { is_recv = false })
      else work

  -- The loop, on the outcomes of the system calls.
  unfoldable pub serve : List Outcome → Work → Work
  serve [] work = work
  serve (e ∷ es) work = if work.is_select then serve es (round e work) else work
