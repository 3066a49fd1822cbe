-- ===== src/Socket/Shutdown.antt =====
-- socket/socketaa_worker.h: the flag of a shutdown in sending.
use httpaa.Base.{
  ℕ, zero, suc, ◌≡◌, ◌≢◌, refl, Bool, true, false, List, [], ◌∷◌, Option, none, some, arith, ◌&&◌,
  ltb, if◌then◌else◌,
}
use httpaa.Stringaa.Defs.{Stringaa}
use httpaa.Socket.Transfer.{Bytes, sent, worker_recv, worker_send}
use httpaa.Socket.Serve.{
  Work, close, Outcome, check_recv, check_send, recv_round, send_round, round, serve,
}
use httpaa.Socket.Closed.{HandlerKeeps}

sent-ne-recv_shutdown : (s : Stringaa) (a : Option ℕ) → (sent s a).0 ≢ Bytes.recv_shutdown
sent-ne-recv_shutdown s none e = cc
sent-ne-recv_shutdown s (some zero) e = cc
sent-ne-recv_shutdown s (some (suc n)) e = cc

worker_send-ne-recv_shutdown :
    (a : Option ℕ) (s : Stringaa) → (worker_send a s).0 ≢ Bytes.recv_shutdown
unfolding worker_send
worker_send-ne-recv_shutdown a s = on (ltb s.write_pos s.buf_size && ltb s.read_pos s.write_pos)
  where
    on : (b : Bool) → (if b then sent s a else (Bytes.count 0, s)).0 ≢ Bytes.recv_shutdown
    on true e = sent-ne-recv_shutdown s a e
    on false e = cc

module _ (recv_data send_data : Work → Bool × Work) (recv_keeps : HandlerKeeps recv_data)
    (send_keeps : HandlerKeeps send_data) where
  check_send-is_send_shutdown :
      (work : Work) (moved : Bytes)
      → moved ≢ Bytes.recv_shutdown
      → work.is_send_shutdown ≡ false
      → (check_send recv_data send_data work moved).is_send_shutdown ≡ false
  unfolding check_send
  check_send-is_send_shutdown work (Bytes.count zero) ne e = e
  check_send-is_send_shutdown work (Bytes.count (suc n)) ne e = e
  check_send-is_send_shutdown work Bytes.socket_error ne e = e
  check_send-is_send_shutdown work Bytes.recv_shutdown ne e = absurd (ne refl)
  check_send-is_send_shutdown work Bytes.send_shutdown ne e = e

  check_recv-is_send_shutdown :
      (work : Work) (moved : Bytes)
      → work.is_send_shutdown ≡ false
      → (check_recv recv_data send_data work moved).is_send_shutdown ≡ false
  unfolding check_recv
  check_recv-is_send_shutdown work (Bytes.count zero) e = e
  check_recv-is_send_shutdown work (Bytes.count (suc n)) e =
      ground (arith, recv_keeps.is_send_shutdown (record work { is_recv = true }) e)
  check_recv-is_send_shutdown work Bytes.socket_error e = e
  check_recv-is_send_shutdown work Bytes.recv_shutdown e = e
  check_recv-is_send_shutdown work Bytes.send_shutdown e = e

  round-is_send_shutdown :
      (x : Outcome) (work : Work)
      → work.is_send_shutdown ≡ false
      → (round recv_data send_data x work).is_send_shutdown ≡ false
  unfolding round recv_round send_round
  round-is_send_shutdown Outcome.timeout work e = ground arith
  round-is_send_shutdown Outcome.select_error work e = ground arith
  round-is_send_shutdown (Outcome.ready r n) work e =
      let w0 = record work { is_send = false } in
      let w1 = if (send_data w0).0 then close (send_data w0).1 else (send_data w0).1 in
      let k1 : w1.is_send_shutdown ≡ false = ground (arith, send_keeps.is_send_shutdown w0 e) in
      ground (
        arith,
        check_send-is_send_shutdown (record w1 { p_send = (worker_send n w1.p_send).1 })
            (worker_send n w1.p_send).0 (worker_send-ne-recv_shutdown n w1.p_send) k1,
        check_recv-is_send_shutdown
            (record work { is_recv = false; p_recv = (worker_recv r work.p_recv).1 })
            (worker_recv r work.p_recv).0 e,
      )

  -- With handlers that do not set it, the flag `is_send_shutdown` is never set, whatever the system
  -- calls return: the code of a send shutdown is compared with that of a receive shutdown.
  pub serve-is_send_shutdown :
      (es : List Outcome) (work : Work)
      → work.is_send_shutdown ≡ false
      → (serve recv_data send_data es work).is_send_shutdown ≡ false
  unfolding serve
  serve-is_send_shutdown [] work e = e
  serve-is_send_shutdown (x ∷ es) work e = ground (
    arith,
    serve-is_send_shutdown es (round recv_data send_data x work) (round-is_send_shutdown x work e),
  )
