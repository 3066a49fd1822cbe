-- ===== src/Http/Work.antt =====
-- http/httpaa_work.h: the names of the files of a request and of its response, and the method GET.
mod Fault
mod Tests
use httpaa.Base.{ℕ, Bool, true, false, List, Option, none, some, if◌then◌else◌}
use httpaa.Stringaa.Defs.{Stringaa}
use httpaa.Stringaa.Store.{copy, ◌>>=◌}
use httpaa.Uri.Segments.{remove_segment_point, remove_segment_points}

-- The fields of `httpaa` that the functions use: the path of the request URI and the two names.
pub record Files : Type 0 where
  pub abs_path : Stringaa
  pub request_file_name : Stringaa
  pub response_file_name : Stringaa

-- An `if` around the next call.
abbrev pub also :
    Option (Bool × Stringaa) → (Stringaa → Option (Bool × Stringaa)) → Option (Bool × Stringaa)
also none f = none
also (some (false, s)) f = some (false, s)
also (some (true, s)) f = f s

module _ (malloc : ℕ → Option (List ℕ)) where
  -- The three calls that both names are made with.
  abbrev pub file_name : Stringaa → Stringaa → Option (Bool × Stringaa)
  file_name s source = also (also (copy malloc s source) remove_segment_point) remove_segment_points

  -- `httpaa_work_get_request_file_name`
  unfoldable pub get_request_file_name : Files → Option (Bool × Files)
  get_request_file_name http = do
    (is_get, s) ← file_name http.request_file_name http.abs_path
    some (is_get, record http { request_file_name = s })

  -- `httpaa_work_set_response_file_name`: the second copy replaces the first one.
  unfoldable pub set_response_file_name : Files → Stringaa → Option (Bool × Files)
  set_response_file_name http path = do
    (is_set, s) ←
        also (copy malloc http.response_file_name path) (λ s. file_name s http.request_file_name)
    some (is_set, record http { response_file_name = s })

  -- `http11_work_method_get`
  unfoldable pub work_method_get : Files → Stringaa → Option (Bool × Files)
  unfolding get_request_file_name set_response_file_name
  work_method_get http path = do
    (is_get, http1) ← get_request_file_name http
    (if is_get then set_response_file_name http1 path else some (false, http1))
