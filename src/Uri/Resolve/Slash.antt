-- ===== src/Uri/Resolve/Slash.antt =====
-- url/uriaa_rfc2396_resolve.h: how much of the path of the base URI is kept.
use native.Mathlib.Nat.{add-zero, add-suc}
use httpaa.Base.{
  ℕ, zero, suc, ◌+◌, ◌-◌, ◌<◌, ◌≤◌, ◌≡◌, refl, ap, true, false, ◌&&◌, ◌∙◌, List, none, some, Bool,
  ltb, ◌==◌, if◌then◌else◌, arith,
}
use httpaa.Stringaa.Defs.{Stringaa, bytes}
use httpaa.Stringaa.Store.{◌>>=◌}
use httpaa.Uri.Segments.{is_at}
use httpaa.Uri.Resolve.{last_slash, base_copy_size, has_buf}

module _ (l : List ℕ) where
  slash_here : (k : ℕ) → is_at l k b'/' ≡ some true → last_slash l k ≡ some (k + 1)
  unfolding last_slash
  slash_here zero h = rw (last_slash, h) refl
  slash_here (suc k) h = rw (last_slash, h) refl

  slash_before : (k : ℕ) → is_at l (suc k) b'/' ≡ some false → last_slash l (suc k) ≡ last_slash l k
  unfolding last_slash
  slash_before k h = rw (last_slash, h) refl

  last_slash_lem :
      (k n : ℕ)
      → is_at l k b'/' ≡ some true
      → ((j : ℕ) → k < j → j ≤ k + n → is_at l j b'/' ≡ some false)
      → last_slash l (k + n) ≡ some (k + 1)
  last_slash_lem k zero h f = rw (add-zero k) (slash_here k h)
  last_slash_lem k (suc n) h f = rw (add-suc k n) (
      slash_before (k + n) (f (suc (k + n)) (omega arith) (omega arith))
      ∙ last_slash_lem k n h (λ j a b. f j a (omega arith)))

  last_slash-none :
      (n : ℕ) → ((j : ℕ) → j ≤ n → is_at l j b'/' ≡ some false) → last_slash l n ≡ none
  unfolding last_slash
  last_slash-none zero f = rw (last_slash, f 0 (omega arith)) refl
  last_slash-none (suc n) f =
      slash_before n (f (suc n) (omega arith)) ∙ last_slash-none n (λ j h. f j (omega arith))

-- A path that is set, without a terminating zero.
pub record IsPlain (s : Stringaa) : Type 0 where
  pub set : s.is_init ≡ true
  pub has : has_buf s ≡ true
  pub plain : s.is_null_terminated ≡ false
  pub some_byte : 0 < s.write_pos

ltb-true : (n : ℕ) → 0 < n → ltb 0 n ≡ true
ltb-true n h = ground arith

positive : (n : ℕ) → (n + 1 == 0) ≡ false
positive n = ground arith

pub and_false : (b : Bool) → (b && false) ≡ false
and_false true = refl
and_false false = refl

module _ (s : Stringaa) (h : IsPlain s) where
  base_copy_size_eq :
      (i : ℕ)
      → i + 1 ≡ s.write_pos
      → base_copy_size s
        ≡ (do size ← last_slash (bytes s) i; some (if size == 0 then s.write_pos else size))
  unfolding base_copy_size
  base_copy_size_eq i e = rw h.set (
      rw h.has (
        rw h.plain (
          rw (ltb-true s.write_pos h.some_byte) (
            rw (and_false (ltb 0 (s.write_pos - 1))) (
              ap
                (λ j.
                  last_slash (bytes s) j
                  >>= (λ size. some (if size == 0 then s.write_pos else size)))
                (omega (arith, e)))))))

  -- Of the base path, the bytes up to its last slash are kept.
  pub base_copy_size_lem :
      (k : ℕ)
      → k < s.write_pos
      → is_at (bytes s) k b'/' ≡ some true
      → ((j : ℕ) → k < j → j < s.write_pos → is_at (bytes s) j b'/' ≡ some false)
      → base_copy_size s ≡ some (k + 1)
  base_copy_size_lem k lt e f =
      base_copy_size_eq (k + (s.write_pos - 1 - k)) (omega arith)
      ∙ rw (last_slash_lem (bytes s) k (s.write_pos - 1 - k) e (λ j a b. f j a (omega arith)))
          (rw (positive k) refl)

  -- A base path without a slash: the search goes on in front of the block.
  pub base_copy_size-none :
      ((j : ℕ) → j < s.write_pos → is_at (bytes s) j b'/' ≡ some false) → base_copy_size s ≡ none
  base_copy_size-none f =
      base_copy_size_eq (s.write_pos - 1) (omega (arith, h.some_byte))
      ∙ rw (last_slash-none (bytes s) (s.write_pos - 1) (λ j a. f j (omega (arith, h.some_byte))))
          refl
