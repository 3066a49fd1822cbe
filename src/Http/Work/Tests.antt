-- ===== src/Http/Work/Tests.antt =====
-- http/httpaa_work.h: the method GET at a concrete request.
use httpaa.Base.{
  ℕ, Bool, ◌+◌, ◌≡◌, ◌≢◌, refl, ap, arith, true, List, [], ◌∷◌, ◌++◌, Option, none, some, length,
  codes, replicate,
}
use httpaa.Stringaa.Defs.{Stringaa, zeroed, bytes}
use httpaa.Uri.Segments.Spec.{without_dots}
use httpaa.Stringaa.Store.{copy}
use httpaa.Uri.Segments.{remove_segment_point, remove_segment_points}
use httpaa.Http.Work.{Files, work_method_get}
use httpaa.Http.Work.Fault.{work_method_get_fault}

abbrev part : List ℕ → Stringaa
part l = record zeroed { buf = some l; buf_size = length l; write_pos = length l; is_init = true }

abbrev zeros : ℕ → Option (List ℕ)
zeros n = some (replicate n 0)

-- The request `GET /./x`.
abbrev dotted : Files
dotted = record {
  abs_path = part (codes "/./x");
  request_file_name = zeroed;
  response_file_name = zeroed;
}

apart : (a b : ℕ) → a ≡ b → a + 1 ≢ b + 3
apart a b h k = omega (arith, h, k)

shorter : without_dots (codes "/./x" ++ 0 ∷ []) ≢ codes "/./x" ++ 0 ∷ []
shorter e = apart 2 2 refl (ap length e)

work_method_get_fault_example : work_method_get zeros dotted (part (codes "/srv")) ≡ none
work_method_get_fault_example =
    work_method_get_fault zeros dotted (part (codes "/srv")) (replicate 5 0) (codes "/./x") refl
      refl refl refl (omega arith) refl shorter

abbrev plain : Files
plain = record dotted { abs_path = part (codes "/x") }

abbrev response_of : Option (Bool × Files) → List ℕ
response_of none = []
response_of (some (b, http)) = bytes http.response_file_name

-- The name of the response is that of the request: nothing is left of the server's path.
path_lost :
    response_of (work_method_get zeros plain (part (codes "/srv"))) ≡ codes "/x" ++ 0 ∷ 0 ∷ 0 ∷ []
unfolding work_method_get copy remove_segment_point remove_segment_points
path_lost = refl

abbrev size_of : Option (Bool × Files) → ℕ
size_of none = 0
size_of (some (b, http)) = http.request_file_name.buf_size

-- The block of the name has 3 bytes.
size_past_block : size_of (work_method_get zeros plain (part (codes "/srv"))) ≡ 4
unfolding work_method_get copy remove_segment_point remove_segment_points
size_past_block = refl
