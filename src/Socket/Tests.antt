-- ===== src/Socket/Tests.antt =====
-- The loop at concrete inputs.
use httpaa.Base.{◌≡◌, refl, Bool, true, false, List, [], ◌∷◌, none, some, codes}
use httpaa.Stringaa.Defs.{zeroed}
use httpaa.Socket.Transfer.{worker_recv, worker_send}
use httpaa.Socket.Serve.{
  Work, Outcome, ready, timeout, check_recv, check_send, recv_round, send_round, round, serve,
}
use httpaa.Socket.Closed.{HandlerKeeps, Goes, serve-Goes}
use httpaa.Socket.Shutdown.{serve-is_send_shutdown}

-- A handler that asks for sending, and one that fails.
abbrev answers : Work → Bool × Work
answers work = (false, record work { is_send = true })

answers-HandlerKeeps : HandlerKeeps answers
answers-HandlerKeeps = record {
  is_select = λ work e. e;
  closes = λ work. refl;
  is_send_shutdown = λ work e. e;
}

-- A connection that waits for a request, with room for eight bytes, and two bytes to send.
abbrev waiting : Work
waiting = record {
  is_select = true;
  is_recv = true;
  is_send = false;
  is_recv_shutdown = false;
  is_send_shutdown = false;
  p_recv = record zeroed { buf = some (codes "........"); buf_size = 8; is_init = true };
  p_send = record zeroed {
    buf = some (codes "OK......");
    buf_size = 8;
    write_pos = 2;
    is_init = true;
  };
  closes = 0;
}

-- A request is received, the answer is sent, and then there is nothing left to send.
abbrev exchange : List Outcome
exchange = ready (some (codes "GET")) none ∷ ready none (some 2) ∷ ready none none ∷ timeout ∷ []

serve-exchange : (serve answers answers exchange waiting).closes ≡ 1
unfolding serve round recv_round send_round check_recv check_send worker_recv worker_send
serve-exchange = refl

serve-Goes_example : Goes waiting (serve answers answers exchange waiting)
serve-Goes_example =
    serve-Goes answers answers answers-HandlerKeeps answers-HandlerKeeps exchange waiting
      ((λ e. cc), ((λ e. cc), ((λ e. cc), ((λ e. cc), tt)))) refl

serve-is_send_shutdown_example : (serve answers answers exchange waiting).is_send_shutdown ≡ false
serve-is_send_shutdown_example =
    serve-is_send_shutdown answers answers answers-HandlerKeeps answers-HandlerKeeps exchange
      waiting refl
