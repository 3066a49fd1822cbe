-- ===== src/Worker/InRange.antt =====
-- worker/workeraa_utils.h: what holds of the indices and the count as long as no call leaves the array.
use httpaa.Base.{
  ℕ, ◌+◌, ◌≤◌, ◌<◌, ◌≡◌, ◌≢◌, ◌⊎◌, refl, ◌∙◌, Bool, true, false, Option, none, some, arith, length,
  get_elem?, ◌==◌, if◌then◌else◌, length-set, length-replicate, get_elem?-past,
}
use httpaa.Worker.Sync.{
  Sync, work_set_next_read_index, work_set_next_write_index, work_check_read_index,
  work_check_write_index,
}
use httpaa.Worker.Work.{
  Outcome, fault, waits, returns, socketaa_set_work, set_work_done, set_work_at, get_work_at,
  set_work, sync_init,
}

-- The places between the indices are as many as the works, or more.
pub record InRange {A : Type 0} (s : Sync A) : Type 0 where
  pub places : length s.work ≡ s.work_size
  pub some_place : 0 < s.work_size
  pub read_in : s.work_read_index ≤ s.work_size
  pub write_in : s.work_write_index ≤ s.work_size
  pub ahead :
      s.work_read_index < s.work_write_index → s.work_count + s.work_read_index ≤ s.work_write_index
  pub level : s.work_read_index ≡ s.work_write_index → s.work_count < s.work_size
  pub at_ends :
      s.work_read_index ≡ s.work_write_index
      → (s.work_read_index ≡ 0) ⊎ (s.work_read_index ≡ s.work_size)
      → s.work_count ≡ 0
  pub wrapped :
      s.work_write_index < s.work_read_index
      → (s.work_read_index < s.work_size)
        × (0 < s.work_write_index)
        × (s.work_count + s.work_read_index < s.work_size + s.work_write_index)

-- A pointer that `malloc` has not been called for.
abbrev no_block : Option ℕ
no_block = none

module _ {A : Type 0} where
  pub sync_init-InRange : (size : ℕ) → InRange (sync_init A size)
  unfolding sync_init
  sync_init-InRange size = record {
    places = length-replicate {0} (if size == 0 then 1024 else size) no_block;
    some_place = ground arith;
    read_in = omega arith;
    write_in = omega arith;
    ahead = λ h. omega (arith, h);
    level = ground arith;
    at_ends = λ h k. refl;
    wrapped = λ h. absurd (omega (arith, h));
  }

  -- What holds of the state that a call returns.
  abbrev pub Returned : {R : Type 0} → Outcome (R × Sync A) → Type 0
  Returned fault = Unit
  Returned waits = Unit
  Returned (returns (_, s')) = InRange s'

  done-InRange :
      (s : Sync A)
      → InRange s
      → s.work_write_index < s.work_size
      → work_check_write_index s ≡ true
      → Returned (set_work_done s)
  unfolding work_set_next_write_index work_check_write_index
  done-InRange s v lt e = record {
    places = ground (arith, v.places);
    some_place = ground (arith, v.some_place);
    read_in = ground (arith, v.read_in);
    write_in = ground (arith, v.write_in);
    ahead = ground (arith, v.read_in, v.ahead, v.level, v.at_ends, v.wrapped);
    level = ground (arith, v.read_in, v.ahead, v.level, v.at_ends, v.wrapped);
    at_ends = ground (arith, v.read_in, v.ahead, v.level, v.at_ends, v.wrapped);
    wrapped = ground (arith, v.read_in, v.ahead, v.level, v.at_ends, v.wrapped);
  }

  pub taken-InRange :
      (s : Sync A) (slot : Option ℕ)
      → InRange s
      → s.work_count ≢ 0
      → work_check_read_index s ≡ true
      → Returned (get_work_at s (some slot))
  unfolding work_set_next_read_index work_check_read_index
  taken-InRange s slot v c e = record {
    places = ground (arith, v.places);
    some_place = ground (arith, v.some_place);
    read_in = ground (arith, v.read_in, v.write_in);
    write_in = ground (arith, v.write_in);
    ahead = ground (arith, v.write_in, v.ahead, v.level, v.at_ends, v.wrapped);
    level = ground (arith, v.write_in, v.ahead, v.level, v.at_ends, v.wrapped);
    at_ends = ground (arith, v.write_in, v.ahead, v.level, v.at_ends, v.wrapped);
    wrapped = ground (arith, v.write_in, v.ahead, v.level, v.at_ends, v.wrapped);
  }

  set_job :
      (alloc : Bool) (s : Sync A) (i : ℕ) (slot : Option ℕ) (job : A)
      → InRange s
      → InRange (socketaa_set_work alloc s i slot job).1
        × ((socketaa_set_work alloc s i slot job).1.work_write_index ≡ s.work_write_index)
        × ((socketaa_set_work alloc s i slot job).1.work_size ≡ s.work_size)
        × (work_check_write_index (socketaa_set_work alloc s i slot job).1
            ≡ work_check_write_index s)
  unfolding socketaa_set_work work_check_write_index
  set_job alloc s i (some p) job v = (
    record {
      places = v.places;
      some_place = v.some_place;
      read_in = v.read_in;
      write_in = v.write_in;
      ahead = v.ahead;
      level = v.level;
      at_ends = v.at_ends;
      wrapped = v.wrapped;
    },
    refl,
    refl,
    refl,
  )
  set_job true s i none job v = (
    record {
      places = length-set s.work i (some (length s.heap)) ∙ v.places;
      some_place = v.some_place;
      read_in = v.read_in;
      write_in = v.write_in;
      ahead = v.ahead;
      level = v.level;
      at_ends = v.at_ends;
      wrapped = v.wrapped;
    },
    refl,
    refl,
    refl,
  )
  set_job false s i none job v = (v, refl, refl, refl)

  set_work_at-Returned :
      (alloc : Bool) (s : Sync A) (o : Option (Option ℕ)) (job : A)
      → InRange s
      → get_elem? s.work s.work_write_index ≡ o
      → work_check_write_index s ≡ true
      → Returned (set_work_at alloc s o job)
  set_work_at-Returned alloc s none job v e c = tt
  set_work_at-Returned alloc s (some slot) job v e c =
      let (v', w, n, k) = set_job alloc s s.work_write_index slot job v in
      let lt : s.work_write_index < s.work_size =
        ground (arith, v.places, e, get_elem?-past s.work s.work_write_index) in
      ground (
        arith,
        v',
        done-InRange (socketaa_set_work alloc s s.work_write_index slot job).1 v'
            (omega (arith, w, n, lt)) (k ∙ c),
      )

  pub set_work-Returned :
      (lock alloc : Bool) (s : Sync A) (job : A) → InRange s → Returned (set_work lock alloc s job)
  unfolding set_work
  set_work-Returned lock alloc s job v =
      ground (arith, set_work_at-Returned alloc s (get_elem? s.work s.work_write_index) job v refl)
  -- Where there is a work, it can be taken.
