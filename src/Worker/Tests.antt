-- ===== src/Worker/Tests.antt =====
-- The pool at concrete sequences of calls.
use httpaa.Base.{
  ℕ, ◌<◌, ◌≡◌, ◌≢◌, ◌↔◌, refl, true, false, List, [], ◌∷◌, Option, none, some, arith, ◌+◌,
}
use httpaa.Worker.Sync.{
  Sync, work_set_next_read_index, work_set_next_write_index, work_check_read_index,
  work_check_write_index,
}
use httpaa.Worker.Work.{fault, returns, socketaa_set_work, set_work, get_work, sync_init}
use httpaa.Worker.Bounds.{IsValid, set_work-eq-fault_iff}
use httpaa.Worker.InRange.{InRange}
use httpaa.Worker.Reach.{Step, Reaches, Reaches-InRange, get_work-Reaches, get_work_serves}
use httpaa.Worker.Fifo.{Event, put, take_one, Reply, step, run, run_fifo, puts, run-sync_init}
use httpaa.Worker.Wrap.{run_overflow, run_stuck, run_stale}

-- Three places, two jobs.
abbrev script : List (Event ℕ)
script = put 7 ∷ take_one ∷ put 8 ∷ take_one ∷ take_one ∷ []

run-script :
    run (sync_init ℕ 3) script
    ≡ Reply.accepted ∷ Reply.got (some 7) ∷ Reply.accepted ∷ Reply.got (some 8) ∷ Reply.empty ∷ []
unfolding run step set_work get_work socketaa_set_work work_check_write_index work_check_read_index
    work_set_next_write_index work_set_next_read_index sync_init
run-script = refl

run-sync_init_example : run (sync_init ℕ 3) script ≡ run_fifo [] script
unfolding puts
run-sync_init_example = run-sync_init 3 script (omega arith)

-- Three places, all of them used, and the first one served: the write index is past the end.
abbrev past : Sync ℕ
past = record {
  heap = 7 ∷ 8 ∷ 9 ∷ [];
  work = some 0 ∷ some 1 ∷ some 2 ∷ [];
  work_count = 2;
  work_read_index = 1;
  work_write_index = 3;
  work_size = 3;
}

past-IsValid : IsValid past
past-IsValid = record { places = refl; read_in = omega arith; write_in = omega arith }

set_work-eq-fault_iff_example :
    (set_work true true past 5 ≡ fault)
    ↔ (past.work_write_index ≡ past.work_size) × (0 < 1) × (1 < 3)
set_work-eq-fault_iff_example = set_work-eq-fault_iff true past 5 past-IsValid

-- A pool with three places, after a job was put.
abbrev started : Sync ℕ
started = record {
  heap = 7 ∷ [];
  work = some 0 ∷ none ∷ none ∷ [];
  work_count = 1;
  work_read_index = 0;
  work_write_index = 1;
  work_size = 3;
}

put_first : set_work true true (sync_init ℕ 3) 7 ≡ returns (true, started)
unfolding set_work socketaa_set_work work_set_next_write_index work_check_write_index sync_init
put_first = refl

started-Reaches : Reaches 3 started
started-Reaches =
    Reaches.next (sync_init ℕ 3) started Reaches.new
      (Step.put (sync_init ℕ 3) started true true true 7 put_first)

Reaches-InRange_example : InRange started
Reaches-InRange_example = Reaches-InRange 3 started started-Reaches

get_work-Reaches_example : get_work true false started ≢ fault
get_work-Reaches_example = get_work-Reaches 3 started true false started-Reaches

some_work : started.work_count ≢ 0
some_work h = omega (arith, h)

get_work_serves_example :
    (p_work : Option ℕ) × (s' : Sync ℕ) × (get_work true false started ≡ returns (some p_work, s'))
    × (s'.work_count + 1 ≡ 1)
get_work_serves_example = get_work_serves 3 started false started-Reaches some_work

run_overflow_example :
    run (sync_init ℕ 2) (put 7 ∷ put 8 ∷ take_one ∷ put 9 ∷ [])
    ≡ Reply.accepted ∷ Reply.accepted ∷ Reply.got (some 7) ∷ Reply.crashed ∷ []
run_overflow_example = run_overflow 2 7 (8 ∷ []) 9 refl (omega arith)

run_stuck_example :
    run (sync_init ℕ 2) (put 7 ∷ put 8 ∷ take_one ∷ take_one ∷ put 9 ∷ take_one ∷ [])
    ≡ Reply.accepted
      ∷ Reply.accepted
      ∷ Reply.got (some 7)
      ∷ Reply.got (some 8)
      ∷ Reply.refused
      ∷ Reply.empty
      ∷ []
run_stuck_example = run_stuck 2 (7 ∷ 8 ∷ []) (put 9 ∷ take_one ∷ []) refl (omega arith)

-- Three places: two jobs are served, and the third put wraps.
abbrev wrapping : Sync ℕ
wrapping = record {
  heap = 7 ∷ 8 ∷ 9 ∷ [];
  work = some 0 ∷ some 1 ∷ some 2 ∷ [];
  work_count = 0;
  work_read_index = 2;
  work_write_index = 2;
  work_size = 3;
}

wrapping-IsValid : IsValid wrapping
wrapping-IsValid = record { places = refl; read_in = omega arith; write_in = omega arith }

-- The write index has skipped place 0.
abbrev skipped : Sync ℕ
skipped = record {
  heap = 7 ∷ 8 ∷ 9 ∷ [];
  work = some 0 ∷ some 1 ∷ some 2 ∷ [];
  work_count = 0;
  work_read_index = 0;
  work_write_index = 1;
  work_size = 3;
}

skipped-IsValid : IsValid skipped
skipped-IsValid = record { places = refl; read_in = omega arith; write_in = omega arith }

run_stale_example : run skipped (put 5 ∷ take_one ∷ []) ≡ Reply.accepted ∷ Reply.got (some 7) ∷ []
run_stale_example =
    run_stale skipped 5 7 0 1 skipped-IsValid refl refl refl (omega arith) refl refl (omega arith)
      refl
