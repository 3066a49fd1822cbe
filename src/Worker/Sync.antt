-- ===== src/Worker/Sync.antt =====
-- worker/workeraa_structs.h, worker/workeraa_index_utils.h: the shared state, and the functions
-- that test and move its two indices.
use httpaa.Base.{ℕ, ◌+◌, Bool, true, false, ◌&&◌, ◌||◌, List, Option, ltb, ◌==◌, if◌then◌else◌}

-- `struct worker_sync`, without the mutex and the condition. `work` is the array of works, each
-- with the `p_work` pointer that it holds, if any: the number of a block of `heap`, where the
-- copies of the server's jobs live.
pub record Sync (A : Type 0) : Type 0 where
  pub heap : List A
  pub work : List (Option ℕ)
  pub work_count : ℕ
  pub work_read_index : ℕ
  pub work_write_index : ℕ
  pub work_size : ℕ

-- `if (index > work_size) index = work_size;`
abbrev pub clamp_index : ℕ → ℕ → ℕ
clamp_index index size = if ltb size index then size else index

-- The first `if`: the write index and the flag behind it, `none` where its test fails.
abbrev pub next_write_forward : ℕ → ℕ → ℕ → ℕ → Option (Bool × ℕ)
next_write_forward r w count size =
    if ltb r w || (w == r && count == 0)
    then Option.some
        (if ltb (w + 1) size then (true, w + 1) else if ltb 0 r then (true, 0) else (false, size))
    else Option.none

module _ {A : Type 0} where
  -- The new read index is what is stored, and the flag is what is returned.
  unfoldable pub work_set_next_read_index : Sync A → Bool × Sync A
  work_set_next_read_index s =
      let size = s.work_size in
      let r = clamp_index s.work_read_index size in
      let w = clamp_index s.work_write_index size in
      if ltb r w
      then (if ltb (r + 1) w
          then (true, record s { work_read_index = r + 1 })
          else (false, record s { work_read_index = w }))
      else if ltb w r || (r == w && ltb 0 s.work_count)
      then (if ltb (r + 1) size
          then (true, record s { work_read_index = r + 1 })
          else if ltb 0 w
          then (true, record s { work_read_index = 0 })
          else (false, record s { work_read_index = size }))
      else (false, s)

  -- The second `if`, which is no `else if`: it also runs on what the first one has computed.
  abbrev pub next_write_behind : ℕ → Bool × ℕ → Sync A → Bool × Sync A
  next_write_behind r (is_set, w) s =
      if ltb w r
      then (if ltb (w + 1) r
          then (true, record s { work_write_index = w + 1 })
          else (is_set, record s { work_write_index = r }))
      else (is_set, s)

  unfoldable pub work_set_next_write_index : Sync A → Bool × Sync A
  work_set_next_write_index s =
      let size = s.work_size in
      let r = clamp_index s.work_read_index size in
      let w = clamp_index s.work_write_index size in
      elim (next_write_forward r w s.work_count size) [
        | Option.none ↦ next_write_behind r (false, w) s
        | Option.some (is_set, w') ↦
            next_write_behind r (is_set, w') (record s { work_write_index = w' })
      ]

  unfoldable pub work_check_read_index : Sync A → Bool
  work_check_read_index s =
      let size = s.work_size in
      let r = clamp_index s.work_read_index size in
      let w = clamp_index s.work_write_index size in
      if r == w && ltb 0 s.work_count && ltb r size
      then true
      else if ltb r w
      then true
      else if ltb w r
      then (if ltb r size then true else if ltb 0 w then true else false)
      else false

  unfoldable pub work_check_write_index : Sync A → Bool
  work_check_write_index s =
      let size = s.work_size in
      let r = clamp_index s.work_read_index size in
      let w = clamp_index s.work_write_index size in
      if w == r && s.work_count == 0 && ltb w size
      then true
      else if ltb r w
      then (if ltb w size then true else if ltb 0 r then true else false)
      else if ltb w r
      then true
      else false
