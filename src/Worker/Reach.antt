-- ===== src/Worker/Reach.antt =====
-- The states of the pool that calls lead to from a new one, until one leaves the array of works.
use httpaa.Base.{
  ℕ, ◌+◌, ◌-◌, ◌<◌, ◌≡◌, ◌≢◌, Bool, true, false, Option, some, arith, ◌==◌, get_elem?-lt, subst,
  Bool-cases, ==_iff, inl, inr,
}
use httpaa.Worker.Sync.{Sync, work_set_next_read_index, work_check_read_index}
use httpaa.Worker.Work.{fault, returns, get_work_at, set_work, get_work, sync_init}
use httpaa.Worker.Bounds.{work_set_next_read_index-keeps}
use httpaa.Worker.InRange.{InRange, Returned, sync_init-InRange, taken-InRange, set_work-Returned}

-- One call that returns. One that waits changes nothing.
pub data Step {A : Type 0} : Sync A → Sync A → Type 0 where
  put :
      (s s' : Sync A) (lock alloc is_set : Bool) (job : A)
      → set_work lock alloc s job ≡ returns (is_set, s')
      → Step s s'
  take :
      (s s' : Sync A) (lock wait_fails : Bool) (p_work : Option (Option ℕ))
      → get_work lock wait_fails s ≡ returns (p_work, s')
      → Step s s'

pub data Reaches {A : Type 0} (size : ℕ) : Sync A → Type 0 where
  new : Reaches size (sync_init A size)
  next : (s s' : Sync A) → Reaches size s → Step s s' → Reaches size s'

module _ {A : Type 0} where
  get_work-found :
      (s : Sync A)
      → InRange s
      → s.work_count ≢ 0
      → (work_check_read_index s ≡ true) × (s.work_read_index < s.work_size)
  unfolding work_check_read_index
  get_work-found s v c = (
    ground (arith, v.read_in, v.write_in, v.at_ends, v.wrapped),
    ground (arith, v.read_in, v.write_in, v.at_ends, v.wrapped),
  )

  get_work-served :
      (wait_fails : Bool) (s : Sync A)
      → InRange s
      → s.work_count ≢ 0
      → (slot : Option ℕ) × (get_work true wait_fails s ≡ get_work_at s (some slot))
  unfolding get_work
  get_work-served wait_fails s v c =
      let (check, lt) = get_work-found s v c in
      let (slot, e) = get_elem?-lt s.work s.work_read_index (omega (arith, v.places)) in
      (slot, ground (arith, check, e))

  get_work-empty :
      (wait_fails : Bool) (s : Sync A)
      → InRange s
      → s.work_count ≡ 0
      → Returned (get_work true wait_fails s) × (get_work true wait_fails s ≢ fault)
  unfolding get_work
  get_work-empty wait_fails s v c = ground arith

  get_work-locked :
      (wait_fails : Bool) (s : Sync A)
      → InRange s
      → Returned (get_work true wait_fails s) × (get_work true wait_fails s ≢ fault)
  get_work-locked wait_fails s v = elim (Bool-cases (s.work_count == 0)) [
    | inl e ↦ get_work-empty wait_fails s v ((==_iff s.work_count 0).0 e)
    | inr e ↦
        let c : s.work_count ≢ 0 = ground arith in
        let (slot, eq) = get_work-served wait_fails s v c in
        rw eq (taken-InRange s slot v c (get_work-found s v c).0, λ h. cc)
  ]

  get_work-Returned :
      (lock wait_fails : Bool) (s : Sync A) → InRange s → Returned (get_work lock wait_fails s)
  unfolding get_work
  get_work-Returned true wait_fails s v = (get_work-locked wait_fails s v).0
  get_work-Returned false wait_fails s v = v

  get_work-ne-fault :
      (lock wait_fails : Bool) (s : Sync A) → InRange s → get_work lock wait_fails s ≢ fault
  unfolding get_work
  get_work-ne-fault true wait_fails s v = (get_work-locked wait_fails s v).1
  get_work-ne-fault false wait_fails s v = λ h. cc

  abbrev taken : Sync A → Sync A
  taken s = let (_, s') = work_set_next_read_index s in record s' { work_count = s'.work_count - 1 }

  Step-InRange : (s s' : Sync A) → InRange s → Step s s' → InRange s'
  Step-InRange _ _ v (Step.put s s' lock alloc is_set job e) =
      subst Returned e (set_work-Returned lock alloc s job v)
  Step-InRange _ _ v (Step.take s s' lock wait_fails p_work e) =
      subst Returned e (get_work-Returned lock wait_fails s v)

  -- In every state that calls lead to from a new pool, while none leaves the array of works, both
  -- indices are in range, and the works are no more than the places from the read index on to the
  -- write index, round the end of the array where the write index is behind.
  pub Reaches-InRange : (size : ℕ) (s : Sync A) → Reaches size s → InRange s
  Reaches-InRange size _ Reaches.new = sync_init-InRange size
  Reaches-InRange size _ (Reaches.next s s' r k) = Step-InRange s s' (Reaches-InRange size s r) k

  -- In every state that calls lead to from a new pool, while none leaves the array of works, a call
  -- of `workeraa_get_work` does not leave it either.
  pub get_work-Reaches :
      (size : ℕ) (s : Sync A) (lock wait_fails : Bool)
      → Reaches size s
      → get_work lock wait_fails s ≢ fault
  get_work-Reaches size s lock wait_fails k =
      get_work-ne-fault lock wait_fails s (Reaches-InRange size s k)

  -- In every state that calls lead to from a new pool, while none leaves the array of works, a worker
  -- that takes the mutex where there is a work gets a place, and one work less is counted.
  pub get_work_serves :
      (size : ℕ) (s : Sync A) (wait_fails : Bool)
      → Reaches size s
      → s.work_count ≢ 0
      → (p_work : Option ℕ) × (s' : Sync A) × (get_work true wait_fails s
          ≡ returns (some p_work, s'))
        × (s'.work_count + 1 ≡ s.work_count)
  get_work_serves size s wait_fails k c =
      let (slot, eq) = get_work-served wait_fails s (Reaches-InRange size s k) c in
      (slot, taken s, eq, omega (arith, work_set_next_read_index-keeps s))
