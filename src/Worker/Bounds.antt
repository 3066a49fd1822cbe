-- ===== src/Worker/Bounds.antt =====
-- The bounds of the two indices of the ring, and the calls that leave the array of works.
use httpaa.Base.{
  ℕ, ◌≤◌, ◌<◌, ◌≡◌, ◌↔◌, ◌≢◌, ◌⊎◌, inr, Bool, true, false, Option, none, some, arith, length,
  get_elem?, get_elem?-past, get_elem?-lt, refl,
}
use httpaa.Worker.Sync.{
  Sync, work_set_next_read_index, work_set_next_write_index, work_check_write_index,
}
use httpaa.Worker.Work.{fault, socketaa_set_work, set_work_at, set_work}

-- The array of works has `work_size` places, and neither index is past its end.
pub record IsValid {A : Type 0} (s : Sync A) : Type 0 where
  pub places : length s.work ≡ s.work_size
  pub read_in : s.work_read_index ≤ s.work_size
  pub write_in : s.work_write_index ≤ s.work_size

module _ {A : Type 0} where
  -- Moving the write index keeps it in range, and changes nothing else.
  pub work_set_next_write_index-keeps :
      (s : Sync A)
      → let s' = (work_set_next_write_index s).1 in
        (s'.heap ≡ s.heap)
        × (s'.work ≡ s.work)
        × (s'.work_count ≡ s.work_count)
        × (s'.work_read_index ≡ s.work_read_index)
        × (s'.work_size ≡ s.work_size)
        × (s.work_write_index ≤ s.work_size → s'.work_write_index ≤ s.work_size)
  unfolding work_set_next_write_index
  work_set_next_write_index-keeps s = ground arith

  pub work_set_next_read_index-keeps :
      (s : Sync A)
      → let s' = (work_set_next_read_index s).1 in
        (s'.heap ≡ s.heap)
        × (s'.work ≡ s.work)
        × (s'.work_count ≡ s.work_count)
        × (s'.work_write_index ≡ s.work_write_index)
        × (s'.work_size ≡ s.work_size)
        × (s.work_read_index ≤ s.work_size → s'.work_read_index ≤ s.work_size)
  unfolding work_set_next_read_index
  work_set_next_read_index-keeps s = ground arith

  -- What the test of the write index accepts, on a valid state.
  work_check_write_index_iff :
      (s : Sync A)
      → IsValid s
      → (work_check_write_index s ≡ true)
        ↔ ((s.work_write_index < s.work_size)
            × ((s.work_write_index ≢ s.work_read_index) ⊎ (s.work_count ≡ 0)))
          ⊎ ((s.work_write_index ≡ s.work_size)
              × (0 < s.work_read_index)
              × (s.work_read_index < s.work_size))
  unfolding work_check_write_index
  work_check_write_index_iff s v = ground arith

  -- A slot that is there makes no fault.
  set_work_at-ne-fault :
      (alloc : Bool) (s : Sync A) (slot : Option ℕ) (job : A)
      → set_work_at alloc s (some slot) job ≢ fault
  unfolding socketaa_set_work
  set_work_at-ne-fault alloc s (some p) job h = cc
  set_work_at-ne-fault true s none job h = cc
  set_work_at-ne-fault false s none job h = cc

  set_work_at-eq-fault :
      (alloc : Bool) (s : Sync A) (o : Option (Option ℕ)) (job : A)
      → set_work_at alloc s o job ≡ fault
      → o ≡ none
  set_work_at-eq-fault alloc s none job h = refl
  set_work_at-eq-fault alloc s (some slot) job h = absurd (set_work_at-ne-fault alloc s slot job h)

  -- On a valid state, a call of `workeraa_set_work` that gets the mutex leaves the array of works
  -- exactly when the write index stands at the end of the array and the read index strictly
  -- between its ends.
  pub set_work-eq-fault_iff :
      (alloc : Bool) (s : Sync A) (job : A)
      → IsValid s
      → (set_work true alloc s job ≡ fault)
        ↔ (s.work_write_index ≡ s.work_size)
          × (0 < s.work_read_index)
          × (s.work_read_index < s.work_size)
  unfolding set_work
  set_work-eq-fault_iff alloc s job v = (only, if_there)
    where
      only :
          set_work true alloc s job ≡ fault
          → (s.work_write_index ≡ s.work_size)
            × (0 < s.work_read_index)
            × (s.work_read_index < s.work_size)
      only h = ground (
        arith,
        work_check_write_index_iff s v,
        set_work_at-eq-fault alloc s (get_elem? s.work s.work_write_index) job,
        get_elem?-lt s.work s.work_write_index,
      )

      if_there :
          (s.work_write_index ≡ s.work_size)
            × (0 < s.work_read_index)
            × (s.work_read_index < s.work_size)
          → set_work true alloc s job ≡ fault
      if_there h = rw (
        (work_check_write_index_iff s v).1 (inr h),
        get_elem?-past s.work s.work_write_index (omega (arith, v.places)),
      )
