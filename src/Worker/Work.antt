-- ===== src/Worker/Work.antt =====
-- worker/workeraa_utils.h and socket/socketaa_utils.h: how the server puts a job into the ring and
-- how a worker takes one out. Each runs under the mutex, so each is one atomic step on the state.
use httpaa.Base.{
  ℕ, ◌+◌, ◌-◌, Bool, true, false, [], ◌∷◌, ◌++◌, Option, none, some, ◌==◌, length, get_elem?, set,
  if◌then◌else◌, replicate,
}
use httpaa.Worker.Sync.{
  Sync, work_set_next_read_index, work_set_next_write_index, work_check_read_index,
  work_check_write_index,
}

-- What a call does: an access outside the array of works, a wait on the condition with the mutex
-- released and the state unchanged, or a return.
pub data Outcome (R : Type 0) : Type 0 where
  fault : Outcome R
  waits : Outcome R
  returns : R → Outcome R

module _ {A : Type 0} where
  -- `socketaa_set_work`: a slot keeps the block that its first job was copied to, and the next job
  -- overwrites that block. `alloc` says whether `malloc` succeeds. The flag is what it returns.
  unfoldable pub socketaa_set_work : Bool → Sync A → ℕ → Option ℕ → A → Bool × Sync A
  socketaa_set_work alloc s i (some p) job = (true, record s { heap = set s.heap p job })
  socketaa_set_work true s i none job =
      (true, record s { heap = s.heap ++ job ∷ []; work = set s.work i (some (length s.heap)) })
  socketaa_set_work false s i none job = (false, s)

  -- The lines behind a successful `socketaa_set_work`; a failing signal is ignored.
  abbrev pub set_work_done : Sync A → Outcome (Bool × Sync A)
  set_work_done s =
      let (_, s') = work_set_next_write_index s in
      returns (true, record s' { work_count = s'.work_count + 1 })

  abbrev pub set_work_at : Bool → Sync A → Option (Option ℕ) → A → Outcome (Bool × Sync A)
  set_work_at alloc s none job = fault
  set_work_at alloc s (some slot) job =
      let (is_set, s') = socketaa_set_work alloc s s.work_write_index slot job in
      if is_set then set_work_done s' else returns (false, s')

  -- `workeraa_set_work`. `lock` says whether the mutex is taken.
  unfoldable pub set_work : Bool → Bool → Sync A → A → Outcome (Bool × Sync A)
  set_work lock alloc s job =
      if lock
      then (if work_check_write_index s
          then set_work_at alloc s (get_elem? s.work s.work_write_index) job
          else returns (false, s))
      else returns (false, s)

  abbrev pub get_work_at : Sync A → Option (Option ℕ) → Outcome (Option (Option ℕ) × Sync A)
  get_work_at s none = fault
  get_work_at s (some p_work) =
      let (_, s') = work_set_next_read_index s in
      returns (some p_work, record s' { work_count = s'.work_count - 1 })

  -- `workeraa_get_work`: `none` where it returns 0, and else the `p_work` pointer that the worker
  -- gets. `wait_fails` says whether `pthread_cond_wait` fails, which ends the wait.
  unfoldable pub get_work : Bool → Bool → Sync A → Outcome (Option (Option ℕ) × Sync A)
  get_work lock wait_fails s =
      if lock
      then (if s.work_count == 0
          then (if wait_fails then returns (none, s) else waits)
          else if work_check_read_index s
          then get_work_at s (get_elem? s.work s.work_read_index)
          else returns (none, s))
      else returns (none, s)

-- `workeraa_sync_init`, where its allocations succeed; a size of 0 is the default one.
unfoldable pub sync_init : (A : Type 0) → ℕ → Sync A
sync_init A work_size_max =
    let size = if work_size_max == 0 then 1024 else work_size_max in
    record {
      heap = [];
      work = replicate size none;
      work_count = 0;
      work_read_index = 0;
      work_write_index = 0;
      work_size = size;
    }
