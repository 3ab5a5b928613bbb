-- ===== src/Errors/Laws.antt =====
-- What a client of the API reads of an exception.
use sanmarino_crm.Base.{ℕ, ◌≡◌, if◌then◌else◌, arith}
use sanmarino_crm.Errors.{
  Code, Exception, conflict_exception, conflict, is_api_error_code, response_code,
}

-- A code that a service throws as a conflict, with status 409, reaches the client unchanged if it is
-- one of the taxonomy; any other code is replaced by `conflict`.
pub response_code_conflict :
    (get_status : Exception → ℕ) (c : Code)
    → get_status (conflict_exception c) ≡ 409
    → response_code get_status (conflict_exception c)
      ≡ (if is_api_error_code c then c else conflict)
unfolding response_code
response_code_conflict g c s = ground arith
