-- ===== src/Socket/Closed.antt =====
-- When the loop of `socketaa_worker` closes the socket.
use httpaa.Base.{
  ℕ, zero, suc, ◌<◌, ◌≡◌, ◌≢◌, refl, sym, ap, subst, ◌∙◌, Bool, true, false, List, [], ◌∷◌, Option,
  arith, if◌then◌else◌, Bool-cases, inl, inr,
}
use httpaa.Stringaa.Defs.{Stringaa}
use httpaa.Socket.Transfer.{Bytes, worker_recv, worker_send}
use httpaa.Socket.Serve.{
  Work, close, Outcome, check_recv, check_send, recv_round, send_round, round, serve,
}

-- What a handler leaves alone: it does not end the loop, does not close the socket, and does not
-- say that the other side has shut down sending.
pub record HandlerKeeps (handler : Work → Bool × Work) : Type 0 where
  pub is_select : (work : Work) → work.is_select ≡ true → (handler work).1.is_select ≡ true
  pub closes : (work : Work) → (handler work).1.closes ≡ work.closes
  pub is_send_shutdown :
      (work : Work) → work.is_send_shutdown ≡ false → (handler work).1.is_send_shutdown ≡ false

-- What a round does to a connection that is served: it goes on with the socket as it is, or it ends
-- the loop and has closed the socket.
pub data Goes (work work' : Work) : Type 0 where
  on : work'.is_select ≡ true → work'.closes ≡ work.closes → Goes work work'
  over : work'.is_select ≡ false → work.closes < work'.closes → Goes work work'

Goes-if : (base x y : Work) (b : Bool) → Goes base x → Goes base y → Goes base (if b then x else y)
Goes-if base x y true f g = f
Goes-if base x y false f g = g

-- A failed handler closes the socket.
handled-Goes :
    (handler : Work → Bool × Work) (work : Work)
    → HandlerKeeps handler
    → work.is_select ≡ true
    → Goes work (if (handler work).0 then close (handler work).1 else (handler work).1)
handled-Goes handler work k e = elim (Bool-cases (handler work).0) [
  | inl h ↦ rw h (Goes.over refl (omega (arith, k.closes work)))
  | inr h ↦ rw h (Goes.on (k.is_select work e) (k.closes work))
]

module _ (recv_data send_data : Work → Bool × Work) (recv_keeps : HandlerKeeps recv_data)
    (send_keeps : HandlerKeeps send_data) where
  check_recv-Goes :
      (work : Work) (moved : Bytes)
      → work.is_select ≡ true
      → Goes work (check_recv recv_data send_data work moved)
  unfolding check_recv
  check_recv-Goes work (Bytes.count zero) e = Goes.over refl (omega arith)
  check_recv-Goes work (Bytes.count (suc n)) e =
      again (handled-Goes recv_data (record work { is_recv = true }) recv_keeps e)
    where
      again : {work' : Work} → Goes (record work { is_recv = true }) work' → Goes work work'
      again (Goes.on a b) = Goes.on a b
      again (Goes.over a b) = Goes.over a b
  check_recv-Goes work Bytes.socket_error e = Goes.over refl (omega arith)
  check_recv-Goes work Bytes.recv_shutdown e = Goes.on e refl
  check_recv-Goes work Bytes.send_shutdown e = Goes.on e refl

  -- The tests behind a transfer, from a connection that is served or one that is over.
  check_send-Goes :
      (base work : Work) (moved : Bytes)
      → Goes base work
      → Goes base (check_send recv_data send_data work moved)
  unfolding check_send
  check_send-Goes base work (Bytes.count zero) (Goes.on a b) = Goes.over refl (omega arith)
  check_send-Goes base work (Bytes.count zero) (Goes.over a b) = Goes.over refl (omega arith)
  check_send-Goes base work (Bytes.count (suc n)) (Goes.on a b) = Goes.on a b
  check_send-Goes base work (Bytes.count (suc n)) (Goes.over a b) = Goes.over a b
  check_send-Goes base work Bytes.socket_error (Goes.on a b) = Goes.over refl (omega arith)
  check_send-Goes base work Bytes.socket_error (Goes.over a b) = Goes.over refl (omega arith)
  check_send-Goes base work Bytes.recv_shutdown (Goes.on a b) = Goes.on a b
  check_send-Goes base work Bytes.recv_shutdown (Goes.over a b) = Goes.over a b
  check_send-Goes base work Bytes.send_shutdown (Goes.on a b) = Goes.on a b
  check_send-Goes base work Bytes.send_shutdown (Goes.over a b) = Goes.over a b

  buffer-Goes :
      {base work : Work} (s : Stringaa) → Goes base work → Goes base (record work { p_send = s })
  buffer-Goes s (Goes.on a b) = Goes.on a b
  buffer-Goes s (Goes.over a b) = Goes.over a b

  from-Goes :
      {base base' work : Work} → base'.closes ≡ base.closes → Goes base' work → Goes base work
  from-Goes e (Goes.on a b) = Goes.on a (b ∙ e)
  from-Goes e (Goes.over a b) = Goes.over a (omega arith)

  send_round-Goes :
      (n : Option ℕ) (work : Work)
      → work.is_select ≡ true
      → Goes work (send_round recv_data send_data n work)
  unfolding send_round
  send_round-Goes n work sel =
      let w1 = if (send_data work).0 then close (send_data work).1 else (send_data work).1 in
      let (moved, p_send) = worker_send n w1.p_send in
      check_send-Goes work (record w1 { p_send = p_send }) moved
        (buffer-Goes p_send (handled-Goes send_data work send_keeps sel))

  recv_round-Goes :
      (r : Option (List ℕ)) (work : Work)
      → work.is_select ≡ true
      → Goes work (recv_round recv_data send_data r work)
  unfolding recv_round
  recv_round-Goes r work sel =
      let (moved, p_recv) = worker_recv r work.p_recv in
      from-Goes refl (check_recv-Goes (record work { p_recv = p_recv }) moved sel)

  -- A round on a connection that is served either goes on and leaves the socket alone, or ends the
  -- loop with the socket closed, unless `select` has failed.
  pub round-Goes :
      (e : Outcome) (work : Work)
      → e ≢ Outcome.select_error
      → work.is_select ≡ true
      → Goes work (round recv_data send_data e work)
  unfolding round
  round-Goes Outcome.select_error work ne sel = absurd (ne refl)
  round-Goes Outcome.timeout work ne sel = Goes.over refl (ground arith)
  round-Goes (Outcome.ready r n) work ne sel =
      Goes-if work (send_round recv_data send_data n (record work { is_send = false }))
        (if work.is_recv
          then recv_round recv_data send_data r (record work { is_recv = false })
          else work)
        work.is_send (from-Goes refl (send_round-Goes n (record work { is_send = false }) sel))
        (Goes-if work (recv_round recv_data send_data r (record work { is_recv = false })) work
          work.is_recv (from-Goes refl (recv_round-Goes r (record work { is_recv = false }) sel))
          (Goes.on sel refl))

  -- No call of `select` fails.
  abbrev pub NoSelectError : List Outcome → Type 0
  NoSelectError [] = Unit {0}
  NoSelectError (e ∷ es) = (e ≢ Outcome.select_error) × NoSelectError es

  serve_over :
      (es : List Outcome) (work : Work)
      → work.is_select ≡ false
      → serve recv_data send_data es work ≡ work
  unfolding serve
  serve_over [] work e = refl
  serve_over (x ∷ es) work e = rw e refl

  serve-cons :
      (e : Outcome) (es : List Outcome) (work : Work)
      → work.is_select ≡ true
      → serve recv_data send_data (e ∷ es) work
        ≡ serve recv_data send_data es (round recv_data send_data e work)
  unfolding serve
  serve-cons e es work sel =
      ap (λ b. if b then serve recv_data send_data es (round recv_data send_data e work) else work)
        sel

  -- With handlers that leave the loop and the socket alone, and where `select` never fails, the loop
  -- from a connection that is served on either still serves it, and has not closed the socket, or
  -- has ended with the socket closed.
  pub serve-Goes :
      (es : List Outcome) (work : Work)
      → NoSelectError es
      → work.is_select ≡ true
      → Goes work (serve recv_data send_data es work)
  unfolding serve
  serve-Goes [] work ne sel = Goes.on sel refl
  serve-Goes (e ∷ es) work (ne, nes) sel = subst (Goes work) (sym (serve-cons e es work sel)) (
      behind es nes (round recv_data send_data e work) (round-Goes e work ne sel)
        (λ w. serve-Goes es w nes))
    where
      behind :
          (es : List Outcome)
          → NoSelectError es
          → (work' : Work) → Goes work work'
          → ((w : Work) → w.is_select ≡ true → Goes w (serve recv_data send_data es w))
          → Goes work (serve recv_data send_data es work')
      behind es nes work' (Goes.on a b) later = from-Goes b (later work' a)
      behind es nes work' (Goes.over a b) later = rw (serve_over es work' a) (Goes.over a b)
