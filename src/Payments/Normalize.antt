-- ===== src/Payments/Normalize.antt =====
-- The checks of a payload in payments.service.ts, `normalize_amount` to `normalize_reject_reason`.
pub mod Laws
use sanmarino_crm.Base.{
  ℕ, zero, suc, ◌+◌, ◌*◌, ◌-◌, ◌/◌, ◌%◌, Bool, true, false, ◌&&◌, ◌||◌, Option, none, some, List,
  [], ◌∷◌, ◌++◌, Text, text_eq, text, leb, ltb, length, if◌then◌else◌, contains, nat_eq, ◌==◌,
}
use sanmarino_crm.Errors.{
  Exception, bad_request_exception, validation_error, payment_refund_requires_return_request,
}
use sanmarino_crm.Action.{Result, ok, err}
use sanmarino_crm.Status.{PaymentExternalSource}

-- The white space of `String.prototype.trim`.
is_space : ℕ → Bool
unfolding nat_eq
is_space c =
    (leb 9 c && leb c 13)
    || c == 32
    || c == 160
    || c == 0x1680
    || (leb 0x2000 c && leb c 0x200a)
    || c == 0x2028
    || c == 0x2029
    || c == 0x202f
    || c == 0x205f
    || c == 0x3000
    || c == 0xfeff

trim_start : Text → Text
unfolding is_space
trim_start [] = []
trim_start (c ∷ t) = let rest = trim_start t in if is_space c then rest else c ∷ t

abbrev cons_unless_blank : Bool → ℕ → Text → Text
cons_unless_blank space c (d ∷ t) = c ∷ d ∷ t
cons_unless_blank space c [] = if space then [] else c ∷ []

trim_end : Text → Text
unfolding is_space
trim_end [] = []
trim_end (c ∷ t) = cons_unless_blank (is_space c) c (trim_end t)

unfoldable pub trim : Text → Text
unfolding trim_start trim_end
trim t = trim_end (trim_start t)

-- `toLowerCase` on the ASCII letters and the Kelvin sign; no other character has as its lower case a
-- letter of the words that are compared.
lower : ℕ → ℕ
unfolding nat_eq
lower c = if leb b'A' c && leb c b'Z' then c + 32 else if c == 0x212a then b'k' else c

unfoldable pub to_lower_case : Text → Text
unfolding lower
to_lower_case [] = []
to_lower_case (c ∷ t) = lower c ∷ to_lower_case t

abbrev pub is_digit : ℕ → Bool
is_digit c = leb b'0' c && leb c b'9'

-- The digits at the front with their value, and what follows: `\d+`, after a first digit.
unfoldable pub scan_digits : ℕ → Text → ℕ × Text
scan_digits n [] = (n, [])
scan_digits n (c ∷ t) =
    let rest = scan_digits (10 * n + (c - b'0')) t in if is_digit c then rest else (n, c ∷ t)

-- `(\.\d{1,2})?$`, in hundredths
scan_fraction : Text → Option ℕ
scan_fraction [] = some 0
scan_fraction (p ∷ []) = none
scan_fraction (p ∷ a ∷ []) =
    if (leb p b'.' && leb b'.' p) && is_digit a then some (10 * (a - b'0')) else none
scan_fraction (p ∷ a ∷ b ∷ []) =
    if (leb p b'.' && leb b'.' p) && is_digit a && is_digit b
    then some (10 * (a - b'0') + (b - b'0'))
    else none
scan_fraction (p ∷ a ∷ b ∷ c ∷ t) = none

-- The value in hundredths of what `/^\d+(\.\d{1,2})?$/` matches.
unfoldable pub scan_amount : Text → Option ℕ
unfolding scan_digits scan_fraction
scan_amount [] = none
scan_amount (c ∷ t) =
    let (n, rest) = scan_digits (c - b'0') t in
    if is_digit c
    then elim (scan_fraction rest) [ none ↦ none | some f ↦ some (100 * n + f) ]
    else none

unfoldable pub normalize_amount : Text → Result ℕ
unfolding scan_amount trim
normalize_amount raw = elim (scan_amount (trim raw)) [
  | none ↦ err (bad_request_exception validation_error)
  | some value ↦ if ltb 0 value then ok value else err (bad_request_exception validation_error)
]

abbrev pub non_empty : Text → Option Text
non_empty [] = none
non_empty (c ∷ t) = some (c ∷ t)

-- `normalize_external_reference`, `normalize_refund_reason` and `normalize_reject_reason`
unfoldable pub normalize_optional_text : Option Text → Option Text
unfolding trim
normalize_optional_text none = none
normalize_optional_text (some value) = non_empty (trim value)

unfoldable pub parse_external_source : Text → Option PaymentExternalSource
parse_external_source t =
    if t == text "bank"
    then some PaymentExternalSource.bank
    else if t == text "acquiring"
    then some PaymentExternalSource.acquiring
    else if t == text "cash_register"
    then some PaymentExternalSource.cash_register
    else if t == text "manual_import"
    then some PaymentExternalSource.manual_import
    else if t == text "other"
    then some PaymentExternalSource.other
    else none

unfoldable pub normalize_external_source : Text → Result PaymentExternalSource
unfolding trim to_lower_case parse_external_source
normalize_external_source value = elim (parse_external_source (to_lower_case (trim value))) [
  | none ↦ err (bad_request_exception validation_error)
  | some source ↦ ok source
]

unfoldable pub normalize_external_event_id : Text → Result Text
unfolding trim
normalize_external_event_id value =
    let normalized = trim value in
    if leb (length normalized) 0 || ltb 128 (length normalized)
    then err (bad_request_exception validation_error)
    else ok normalized

unfoldable pub normalize_required_return_request_id : Option Text → Result Text
unfolding normalize_optional_text
normalize_required_return_request_id value = elim (normalize_optional_text value) [
  | none ↦ err (bad_request_exception payment_refund_requires_return_request)
  | some normalized ↦ ok normalized
]
