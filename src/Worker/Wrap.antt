-- ===== src/Worker/Wrap.antt =====
-- What the pool does once an index comes to the end of the array of works.
use httpaa.Base.{
  ℕ, suc, ◌+◌, ◌≤◌, ◌<◌, ◌≡◌, refl, ap, ◌∙◌, ◌≢◌, inr, List, [], ◌∷◌, ◌++◌, some, arith, length,
  get_elem?, map, get_elem?-set_ne, get_elem?-past,
}
use mathlib.Core.List.{append_assoc, append-nil}
use httpaa.Worker.Sync.{
  Sync, work_set_next_read_index, work_set_next_write_index, work_check_read_index,
  work_check_write_index,
}
use httpaa.Worker.Work.{socketaa_set_work, set_work, get_work, sync_init}
use httpaa.Worker.Bounds.{IsValid}
use httpaa.Worker.Fifo.{
  Event, put, take_one, Reply, step, run, Linear, after_put, after_take, step-put, step_take,
  after_put-Linear, after_take-Linear, fresh, fresh-Linear, sync_init-eq-fresh,
}

module _ {A : Type 0} where
  abbrev fill : Sync A → List A → Sync A
  fill s [] = s
  fill s (x ∷ xs) = fill (after_put s x) xs

  abbrev drain : Sync A → List A → Sync A
  drain s [] = s
  drain s (x ∷ xs) = drain (after_take s) xs

  fill-fields :
      (xs : List A) (s : Sync A)
      → ((fill s xs).work_read_index ≡ s.work_read_index)
        × ((fill s xs).work_write_index ≡ s.work_write_index + length xs)
        × ((fill s xs).work_size ≡ s.work_size)
  fill-fields [] s = omega arith
  fill-fields (x ∷ xs) s = omega (arith, fill-fields xs (after_put s x))

  drain-fields :
      (xs : List A) (s : Sync A)
      → ((drain s xs).work_read_index ≡ s.work_read_index + length xs)
        × ((drain s xs).work_write_index ≡ s.work_write_index)
        × ((drain s xs).work_size ≡ s.work_size)
  drain-fields [] s = omega arith
  drain-fields (x ∷ xs) s = omega (arith, drain-fields xs (after_take s))

  fill-Linear :
      (xs : List A) (s : Sync A) (q : List A)
      → Linear s q
      → s.work_write_index + length xs ≤ s.work_size
      → Linear (fill s xs) (q ++ xs)
  fill-Linear [] s q l h = rw append-nil l
  fill-Linear (x ∷ xs) s q l h = rw (append_assoc q (x ∷ []) xs) at (
      fill-Linear xs (after_put s x) (q ++ x ∷ []) (after_put-Linear s q x l (omega arith))
        (omega arith))

  drain-Linear : (xs : List A) (s : Sync A) → Linear s xs → Linear (drain s xs) []
  drain-Linear [] s l = l
  drain-Linear (x ∷ xs) s l = drain-Linear xs (after_take s) (after_take-Linear s xs x l)

  run-fill :
      (xs : List A) (s : Sync A) (q : List A) (es : List (Event A))
      → Linear s q
      → s.work_read_index ≡ 0
      → s.work_write_index + length xs ≤ s.work_size
      → run s (map put xs ++ es) ≡ map (λ _. Reply.accepted) xs ++ run (fill s xs) es
  unfolding run
  run-fill [] s q es l z h = refl
  run-fill (x ∷ xs) s q es l z h = rw (step-put s q x l (inr (z, omega arith))) (
      ap (λ r. Reply.accepted ∷ r)
        (run-fill xs (after_put s x) (q ++ x ∷ []) es (after_put-Linear s q x l (omega arith)) z
          (omega arith)))

  run-drain :
      (xs : List A) (s : Sync A) (es : List (Event A))
      → Linear s xs
      → run s (map (λ _. take_one) xs ++ es)
        ≡ map (λ x. Reply.got (some x)) xs ++ run (drain s xs) es
  unfolding run
  run-drain [] s es l = refl
  run-drain (x ∷ xs) s es l = rw (step_take s xs x l) (
      ap (λ r. Reply.got (some x) ∷ r)
        (run-drain xs (after_take s) es (after_take-Linear s xs x l)))

  -- The next put leaves the array.
  step-put_past :
      (s : Sync A) (q : List A) (job : A)
      → Linear s q
      → s.work_write_index ≡ s.work_size
      → 0 < s.work_read_index
      → s.work_read_index < s.work_size
      → step (put job) s ≡ (Reply.crashed, s)
  unfolding step set_work work_check_write_index
  step-put_past s q job l e lo hi = ground (arith, get_elem?-past s.work s.work_write_index)

  -- The full pool, and the last two calls.
  run_one_then_past :
      (size : ℕ) (x : A) (xs : List A) (job : A)
      → size ≡ suc (length xs)
      → 2 ≤ size
      → run (fill (fresh A size) (x ∷ xs)) (take_one ∷ put job ∷ [])
        ≡ Reply.got (some x) ∷ Reply.crashed ∷ []
  unfolding run
  run_one_then_past size x xs job e h =
      let full = fill (fresh A size) (x ∷ xs) in
      let fields = fill-fields (x ∷ xs) (fresh A size) in
      let l : Linear full (x ∷ xs) =
        fill-Linear (x ∷ xs) (fresh A size) [] (fresh-Linear A size) (omega arith) in
      rw (step_take full xs x l) (
        rw (
          step-put_past (after_take full) xs job (after_take-Linear full xs x l) (omega arith)
            (omega arith) (omega arith)))

  -- Fill a new pool of a size from 2 on, take one job out, and put one in: the server writes past
  -- the end of the array of works. All the calls before it are served.
  pub run_overflow :
      (size : ℕ) (x : A) (xs : List A) (job : A)
      → size ≡ suc (length xs)
      → 2 ≤ size
      → run (sync_init A size) (map put (x ∷ xs) ++ take_one ∷ put job ∷ [])
        ≡ map (λ _. Reply.accepted) (x ∷ xs) ++ Reply.got (some x) ∷ Reply.crashed ∷ []
  run_overflow size x xs job e h = rw (sync_init-eq-fresh A size (omega arith)) (
      run-fill (x ∷ xs) (fresh A size) [] (take_one ∷ put job ∷ []) (fresh-Linear A size) refl
        (omega arith)
      ∙ ap (λ r. map (λ _. Reply.accepted) (x ∷ xs) ++ r) (run_one_then_past size x xs job e h))

  -- In this state the server is refused for ever, and the workers wait for ever.
  abbrev stuck_reply : Event A → Reply A
  stuck_reply (put job) = Reply.refused
  stuck_reply take_one = Reply.empty

  run_at_end :
      (es : List (Event A)) (s : Sync A)
      → s.work_write_index ≡ s.work_size
      → s.work_read_index ≡ s.work_size
      → s.work_count ≡ 0
      → run s es ≡ map stuck_reply es
  unfolding run step set_work get_work work_check_write_index
  run_at_end [] s w r c = refl
  run_at_end (put job ∷ es) s w r c = ground (arith, run_at_end es s w r c)
  run_at_end (take_one ∷ es) s w r c = ground (arith, run_at_end es s w r c)

  -- A new pool of any positive size that is filled, and then emptied, refuses every later put and lets every
  -- taker wait.
  pub run_stuck :
      (size : ℕ) (xs : List A) (es : List (Event A))
      → size ≡ length xs
      → 0 < size
      → run (sync_init A size) (map put xs ++ (map (λ _. take_one) xs ++ es))
        ≡ map (λ _. Reply.accepted) xs ++ (map (λ x. Reply.got (some x)) xs ++ map stuck_reply es)
  run_stuck size xs es e h =
      let s = fresh A size in
      let l : Linear (fill s xs) xs = fill-Linear xs s [] (fresh-Linear A size) (omega arith) in
      let filled = fill-fields xs s in
      let drained = drain-fields xs (fill s xs) in
      rw (sync_init-eq-fresh A size h) (
        run-fill xs s [] (map (λ _. take_one) xs ++ es) (fresh-Linear A size) refl (omega arith)
        ∙ ap (λ r. map (λ _. Reply.accepted) xs ++ r)
            (run-drain xs (fill s xs) es l
              ∙ ap (λ r. map (λ x. Reply.got (some x)) xs ++ r)
                  (run_at_end es (drain (fill s xs) xs) (omega arith) (omega arith)
                    (drain-Linear xs (fill s xs) l).counted)))

  -- On a valid state whose write index stands at the last place, and whose read index is at least 2
  -- and not behind the write index (and the pool is empty if they are equal), the next write index
  -- is 1: place 0 is skipped.
  pub work_write_index_wrap :
      (s : Sync A)
      → IsValid s
      → s.work_write_index + 1 ≡ s.work_size
      → 2 ≤ s.work_read_index
      → s.work_read_index ≤ s.work_write_index
      → (s.work_read_index ≡ s.work_write_index → s.work_count ≡ 0)
      → (work_set_next_write_index s).1.work_write_index ≡ 1
  unfolding work_set_next_write_index
  work_write_index_wrap s v e r le c = ground arith

  -- On a valid empty pool with the read index at place 0 and the write index at place 1, both of
  -- which have blocks of their own, a put is accepted, and a worker is then given the old job of
  -- place 0, and not the one that was just put.
  pub run_stale :
      (s : Sync A) (job old : A) (p p' : ℕ)
      → IsValid s
      → s.work_read_index ≡ 0
      → s.work_write_index ≡ 1
      → s.work_count ≡ 0
      → 1 < s.work_size
      → get_elem? s.work 0 ≡ some (some p)
      → get_elem? s.work 1 ≡ some (some p')
      → p ≢ p'
      → get_elem? s.heap p ≡ some old
      → run s (put job ∷ take_one ∷ []) ≡ Reply.accepted ∷ Reply.got (some old) ∷ []
  unfolding run step set_work get_work socketaa_set_work work_check_write_index
      work_check_read_index work_set_next_write_index work_set_next_read_index
  run_stale s job old p p' v r w c size at0 at1 ne is =
      ground (arith, get_elem?-set_ne s.heap p' p job)
