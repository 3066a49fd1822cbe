-- ===== src/Worker/Fifo.antt =====
-- The ring as a queue: until the write index comes to the end of the array, the pool hands the
-- jobs to the workers in the order in which the server has put them.
use httpaa.Base.{
  ℕ, zero, suc, ◌+◌, ◌-◌, ◌≤◌, ◌<◌, ◌≡◌, refl, ap, ◌∙◌, ◌⊎◌, inl, Bool, true, false, List, [], ◌∷◌,
  ◌++◌, Option, none, some, arith, length, get_elem?, set, length-set, length-append,
  get_elem?-set_self, get_elem?-set_ne, get_elem?-append_some, get_elem?-append_end, replicate,
  length-replicate,
}
use httpaa.Worker.Sync.{
  Sync, work_set_next_read_index, work_set_next_write_index, work_check_read_index,
  work_check_write_index,
}
use httpaa.Worker.Work.{
  Outcome, fault, waits, returns, socketaa_set_work, set_work, get_work, sync_init,
}

-- What the server and the workers do, one call after another under the mutex.
pub data Event (A : Type 0) : Type 0 where
  put : A → Event A
  take_one : Event A

-- What a call shows: `got` is the job that a worker reads through the pointer that it was given.
pub data Reply (A : Type 0) : Type 0 where
  accepted refused crashed empty : Reply A
  got : Option A → Reply A

module _ {A : Type 0} where
  abbrev pub job_of : List A → Option (Option ℕ) → Reply A
  job_of heap none = Reply.refused
  job_of heap (some none) = Reply.got none
  job_of heap (some (some p)) = Reply.got (get_elem? heap p)

  abbrev pub put_reply : Sync A → Outcome (Bool × Sync A) → Reply A × Sync A
  put_reply s fault = (Reply.crashed, s)
  put_reply s waits = (Reply.empty, s)
  put_reply s (returns (true, s')) = (Reply.accepted, s')
  put_reply s (returns (false, s')) = (Reply.refused, s')

  abbrev pub take_reply : Sync A → Outcome (Option (Option ℕ) × Sync A) → Reply A × Sync A
  take_reply s fault = (Reply.crashed, s)
  take_reply s waits = (Reply.empty, s)
  take_reply s (returns (taken, s')) = (job_of s'.heap taken, s')

  -- One call, where the mutex is taken, memory is there and the wait does not fail.
  unfoldable pub step : Event A → Sync A → Reply A × Sync A
  step (put job) s = put_reply s (set_work true true s job)
  step take_one s = take_reply s (get_work true false s)

  unfoldable pub run : Sync A → List (Event A) → List (Reply A)
  run s [] = []
  run s (e ∷ es) = (step e s).0 ∷ run (step e s).1 es

  -- An unbounded queue.
  unfoldable pub run_fifo : List A → List (Event A) → List (Reply A)
  run_fifo q [] = []
  run_fifo q (put job ∷ es) = Reply.accepted ∷ run_fifo (q ++ job ∷ []) es
  run_fifo [] (take_one ∷ es) = Reply.empty ∷ run_fifo [] es
  run_fifo (job ∷ q) (take_one ∷ es) = Reply.got (some job) ∷ run_fifo q es

  unfoldable pub puts : List (Event A) → ℕ
  puts [] = 0
  puts (put job ∷ es) = suc (puts es)
  puts (take_one ∷ es) = puts es

  -- The places from `i` on point to the blocks that hold these jobs.
  abbrev pub Holds : List A → List (Option ℕ) → ℕ → List A → Type 0
  Holds heap work i [] = Unit {0}
  Holds heap work i (job ∷ q) =
      ((p : ℕ) × (get_elem? work i ≡ some (some p)) × (get_elem? heap p ≡ some job))
      × Holds heap work (i + 1) q

  -- The places from the write index on have never been used, and those from the read index up to
  -- it hold the queue.
  pub record Linear (s : Sync A) (q : List A) : Type 0 where
    pub span : s.work_read_index + length q ≡ s.work_write_index
    pub counted : s.work_count ≡ length q
    pub places : length s.work ≡ s.work_size
    pub write_in : s.work_write_index ≤ s.work_size
    pub holds : Holds s.heap s.work s.work_read_index q
    pub unused : (i : ℕ) → s.work_write_index ≤ i → i < s.work_size → get_elem? s.work i ≡ some none

  Holds-put :
      (heap : List A) (work : List (Option ℕ)) (i w : ℕ) (q : List A) (job : A)
      → i + length q ≡ w
      → w < length work
      → Holds heap work i q
      → Holds (heap ++ job ∷ []) (set work w (some (length heap))) i (q ++ job ∷ [])
  Holds-put heap work i w [] job e h t =
      let same : w ≡ i = omega arith in
      (
        (
          length heap,
          rw (← same) (get_elem?-set_self work w (some (length heap)) h),
          get_elem?-append_end heap job,
        ),
        tt,
      )
  Holds-put heap work i w (x ∷ q) job e h ((p, at, is), t) = (
    (
      p,
      get_elem?-set_ne work w i (some (length heap)) (omega arith) ∙ at,
      get_elem?-append_some heap (job ∷ []) p x is,
    ),
    Holds-put heap work (i + 1) w q job (omega arith) h t,
  )

  -- There is room for one more job before the write index has to wrap.
  abbrev pub HasRoom : Sync A → Type 0
  HasRoom s =
      (s.work_write_index + 1 < s.work_size)
      ⊎ ((s.work_read_index ≡ 0) × (s.work_write_index < s.work_size))

  abbrev pub after_put : Sync A → A → Sync A
  after_put s job = record s {
    heap = s.heap ++ job ∷ [];
    work = set s.work s.work_write_index (some (length s.heap));
    work_write_index = s.work_write_index + 1;
    work_count = s.work_count + 1;
  }

  abbrev pub after_take : Sync A → Sync A
  after_take s = record s { work_read_index = s.work_read_index + 1; work_count = s.work_count - 1 }

  -- A call of `workeraa_set_work` puts its job at the write index.
  pub step-put :
      (s : Sync A) (q : List A) (job : A)
      → Linear s q
      → HasRoom s
      → step (put job) s ≡ (Reply.accepted, after_put s job)
  unfolding step set_work socketaa_set_work work_check_write_index work_set_next_write_index
  step-put s q job l h = ground (arith, l.unused s.work_write_index)

  pub step_take :
      (s : Sync A) (q : List A) (job : A)
      → Linear s (job ∷ q)
      → step take_one s ≡ (Reply.got (some job), after_take s)
  unfolding step get_work work_check_read_index work_set_next_read_index
  step_take s q job l = ground arith

  pub after_put-Linear :
      (s : Sync A) (q : List A) (job : A)
      → Linear s q
      → s.work_write_index < s.work_size
      → Linear (after_put s job) (q ++ job ∷ [])
  after_put-Linear s q job l h = record {
    span = omega (arith, length-append q (job ∷ []));
    counted = omega (arith, length-append q (job ∷ []));
    places = length-set s.work s.work_write_index (some (length s.heap)) ∙ l.places;
    write_in = omega arith;
    holds =
        Holds-put s.heap s.work s.work_read_index s.work_write_index q job l.span (omega arith)
          l.holds;
    unused = λ i lo hi.
        get_elem?-set_ne s.work s.work_write_index i (some (length s.heap)) (omega arith)
        ∙ l.unused i (omega arith) hi;
  }

  pub after_take-Linear :
      (s : Sync A) (q : List A) (job : A) → Linear s (job ∷ q) → Linear (after_take s) q
  after_take-Linear s q job l = record {
    span = omega arith;
    counted = omega arith;
    places = l.places;
    write_in = l.write_in;
    holds = l.holds.1;
    unused = l.unused;
  }

  -- A worker that finds nothing waits.
  step_empty : (s : Sync A) → Linear s [] → step take_one s ≡ (Reply.empty, s)
  unfolding step get_work
  step_empty s l = ground arith

  run-Linear :
      (es : List (Event A)) (s : Sync A) (q : List A)
      → Linear s q
      → s.work_write_index + puts es < s.work_size
      → run s es ≡ run_fifo q es
  unfolding run run_fifo puts
  run-Linear [] s q l h = refl
  run-Linear (put job ∷ es) s q l h = rw (step-put s q job l (inl (omega arith))) (
      ap (λ r. Reply.accepted ∷ r)
        (run-Linear es (after_put s job) (q ++ job ∷ []) (after_put-Linear s q job l (omega arith))
          (omega arith)))
  run-Linear (take_one ∷ es) s [] l h =
      rw (step_empty s l) (ap (λ r. Reply.empty ∷ r) (run-Linear es s [] l h))
  run-Linear (take_one ∷ es) s (job ∷ q) l h = rw (step_take s q job l) (
      ap (λ r. Reply.got (some job) ∷ r)
        (run-Linear es (after_take s) q (after_take-Linear s q job l) h))

abbrev pub no_work : Option ℕ
no_work = none

get_elem?-replicate : (n i : ℕ) → i < n → get_elem? (replicate n no_work) i ≡ some none
get_elem?-replicate zero i h = elim h [ ]
get_elem?-replicate (suc n) zero h = refl
get_elem?-replicate (suc n) (suc i) h = get_elem?-replicate n i (omega arith)

-- The state of a new pool of a positive size.
abbrev pub fresh : (A : Type 0) → ℕ → Sync A
fresh A size = record {
  heap = [];
  work = replicate size none;
  work_count = 0;
  work_read_index = 0;
  work_write_index = 0;
  work_size = size;
}

pub sync_init-eq-fresh : (A : Type 0) (size : ℕ) → 0 < size → sync_init A size ≡ fresh A size
unfolding sync_init
sync_init-eq-fresh A size h = ground arith

pub fresh-Linear : (A : Type 0) (size : ℕ) → Linear (fresh A size) []
fresh-Linear A size = record {
  span = omega arith;
  counted = refl;
  places = length-replicate size no_work;
  write_in = omega arith;
  holds = tt;
  unused = λ i lo hi. get_elem?-replicate size i hi;
}

-- A new pool with room for `size` works, at most `size - 1` of which are put, serves every
-- sequence of calls as an unbounded queue would: each put is accepted, each taker gets the oldest
-- job, a taker that finds nothing waits, and no call leaves the array.
pub run-sync_init :
    {A : Type 0} (size : ℕ) (es : List (Event A))
    → puts es < size
    → run (sync_init A size) es ≡ run_fifo [] es
run-sync_init {A} size es h =
    rw (sync_init-eq-fresh A size (omega arith))
      (run-Linear es (fresh A size) [] (fresh-Linear A size) (omega arith))
