-- ===== src/Errors.antt =====
-- apps/api/src/common/errors: the error codes, and how an exception becomes the code of a response.
-- A message is left out; an exception is its class with the `code` of its payload.
pub mod Laws
use sanmarino_crm.Base.{
  ℕ, ◌≡◌, Bool, true, false, ◌||◌, Option, none, some, List, [], ◌∷◌, Eq, ◌==◌, leb, contains,
  nat_eq, if◌then◌else◌,
}

-- Every code that the services write into a payload. The first ten are `api_error_codes`.
pub data Code : Type 0 where
  validation_error not_found conflict : Code
  idempotency_key_reused_with_different_payload transition_not_allowed : Code
  insufficient_stock reservation_not_allowed payment_refund_requires_return_request : Code
  source_of_truth_violation access_denied : Code
  fulfillment_progress_required fulfillment_progress_complete : Code
  fulfillment_progress_invalid fulfillment_progress_incomplete : Code

-- NestJS's exceptions with the code of their payload, if it has one; the database client's error
-- P2002; any other error.
pub data Exception : Type 0 where
  not_found_exception : Exception
  conflict_exception bad_request_exception forbidden_exception : Code → Exception
  unique_constraint_error : Exception
  other_error : Exception

-- `is_api_error_code`
unfoldable pub is_api_error_code : Code → Bool
is_api_error_code fulfillment_progress_required = false
is_api_error_code fulfillment_progress_complete = false
is_api_error_code fulfillment_progress_invalid = false
is_api_error_code fulfillment_progress_incomplete = false
is_api_error_code _ = true

-- `httpStatusHint` of `api_error_taxonomy`; the other codes have no entry.
unfoldable pub http_status_hint : Code → Option ℕ
http_status_hint validation_error = some 422
http_status_hint not_found = some 404
http_status_hint conflict = some 409
http_status_hint idempotency_key_reused_with_different_payload = some 409
http_status_hint transition_not_allowed = some 409
http_status_hint insufficient_stock = some 409
http_status_hint reservation_not_allowed = some 409
http_status_hint payment_refund_requires_return_request = some 422
http_status_hint source_of_truth_violation = some 409
http_status_hint access_denied = some 403
http_status_hint _ = none

unfoldable pub map_http_status_to_error_code : ℕ → Code
unfolding nat_eq
map_http_status_to_error_code http_status =
    if http_status == 404
    then not_found
    else if http_status == 401 || http_status == 403
    then access_denied
    else if http_status == 400 || http_status == 422
    then validation_error
    else if http_status == 409
    then conflict
    else if leb 500 http_status
    then source_of_truth_violation
    else conflict

-- The `code` of a NestJS exception's payload; `none` is any other error.
abbrev pub payload_code : Exception → Option (Option Code)
payload_code not_found_exception = some none
payload_code (conflict_exception c) = some (some c)
payload_code (bad_request_exception c) = some (some c)
payload_code (forbidden_exception c) = some (some c)
payload_code unique_constraint_error = none
payload_code other_error = none

-- `normalize_http_exception_payload`: a code that is not one of `api_error_codes` is dropped.
abbrev pub normalize_http_exception_payload : Option Code → Option Code
normalize_http_exception_payload none = none
normalize_http_exception_payload (some c) = if is_api_error_code c then some c else none

-- `normalize_exception`, its `code`.
unfoldable pub normalize_exception : Exception → ℕ → Code
unfolding is_api_error_code map_http_status_to_error_code
normalize_exception exception http_status = elim (payload_code exception) [
  | none ↦ map_http_status_to_error_code http_status
  | some payload ↦ elim (normalize_http_exception_payload payload) [
    | none ↦ map_http_status_to_error_code http_status
    | some c ↦ c
  ]
]

-- `http_status` in `ApiExceptionFilter.catch`. `getStatus` is NestJS's: it is taken as a parameter.
unfoldable pub filter_http_status : (Exception → ℕ) → Exception → ℕ
filter_http_status get_status exception = elim (payload_code exception) [
  | none ↦ 500
  | some _ ↦ get_status exception
]

-- The code of the response that `ApiExceptionFilter` writes.
unfoldable pub response_code : (Exception → ℕ) → Exception → Code
unfolding normalize_exception filter_http_status
response_code get_status exception =
    normalize_exception exception (filter_http_status get_status exception)
