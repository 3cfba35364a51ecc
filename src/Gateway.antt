-- ===== src/Gateway.antt =====
-- apps/api/src/payments/ssentezo.gateway.ts and payment-gateway.interface.ts: the client of the
-- mobile-money gateway. The HTTP exchange itself is a parameter, an `HttpOutcome`.
pub mod Answers
pub mod Retries
mod Tests
use netcam.Prelude.{
  ℕ, zero, suc, ◌+◌, Bool, true, false, ◌&&◌, ◌||◌, not, Option, none, some, Text, codes, same,
  is_empty, ◌==◌, leb, ltb, if◌then◌else◌, or_default, List, [], ◌∷◌,
}
use netcam.Prelude.Strings.{upper}

pub data TransactionStatus : Type 0 where
  pending succeeded failed indeterminate : TransactionStatus

-- `InitiateDepositResult`, which `initiateWithdrawal` returns too.
pub record InitiateResult : Type 0 where
  pub ok : Bool
  pub uncertain : Bool
  pub transaction_status : Option TransactionStatus
  pub provider_ref : Option Text
  pub financial_transaction_id : Option Text
  pub error_message : Option Text

pub record StatusResult : Type 0 where
  pub ok : Bool
  pub transaction_status : Option TransactionStatus
  pub external_reference : Option Text
  pub provider_ref : Option Text
  pub financial_transaction_id : Option Text
  pub amount : Option ℕ
  pub currency : Option Text
  pub error_message : Option Text

-- The fields of `res.data.data` that are read, where each is a string (or, for the amount, a
-- finite number, which is taken to be whole and not negative, as what the shop asks for is); `none`
-- where it is missing or of another type.
pub record ReplyData : Type 0 where
  pub transaction_status : Option Text
  pub external_reference : Option Text
  pub ssentezo_wallet_reference : Option Text
  pub financial_transaction_id : Option Text
  pub amount : Option ℕ
  pub currency : Option Text

-- How a request ended: an answer with its status code, whether its body's `response` is "OK", the
-- data, and the message that `extractSsentezoError` finds; or no answer, with the error's message.
pub data HttpOutcome : Type 0 where
  answered : (status : ℕ) (response_ok : Bool) (body : ReplyData) (error : Text) → HttpOutcome
  unanswered : (message : Text) → HttpOutcome

-- `parseTransactionStatus` of a string
unfoldable pub parse_transaction_status : Option Text → Option TransactionStatus
parse_transaction_status none = none
parse_transaction_status (some value) =
    let normalized = upper value in
    if same normalized (codes "PENDING")
    then some pending
    else if same normalized (codes "SUCCEEDED")
    then some succeeded
    else if same normalized (codes "FAILED")
    then some failed
    else if same normalized (codes "INDETERMINATE")
    then some indeterminate
    else none

-- `stringOrUndefined`
abbrev pub string_or_undefined : Option Text → Option Text
string_or_undefined none = none
string_or_undefined (some s) = if is_empty s then none else some s

-- `res.status !== 202 && res.status !== 200 || response !== "OK"`, negated
abbrev pub is_accepted : ℕ → Bool → Bool
is_accepted status response_ok = (status == 202 || status == 200) && response_ok

abbrev pub refused : Bool → Text → InitiateResult
refused uncertain message = record {
  ok = false;
  uncertain = uncertain;
  transaction_status = none;
  provider_ref = none;
  financial_transaction_id = none;
  error_message = some message;
}

abbrev pub initiated : ReplyData → TransactionStatus → InitiateResult
initiated body status = record {
  ok = true;
  uncertain = false;
  transaction_status = some status;
  provider_ref = string_or_undefined body.ssentezo_wallet_reference;
  financial_transaction_id = string_or_undefined body.financial_transaction_id;
  error_message = none;
}

abbrev pub not_configured : Text
not_configured = codes "Ssentezo API credentials are not configured"

abbrev pub invalid_status : Text
invalid_status = codes "Ssentezo returned an invalid transaction status"

-- The body of `initiateDeposit` and of `initiateWithdrawal` after the request. `doubt` says, for
-- each way to fail, whether the result is marked uncertain: a deposit never is.
initiate_result : (doubt_status : ℕ → Bool) (doubt : Bool) → HttpOutcome → InitiateResult
initiate_result doubt_status doubt (answered status response_ok body error) =
    if is_accepted status response_ok
    then (elim (parse_transaction_status body.transaction_status) [
      | none ↦ refused doubt invalid_status
      | some s ↦ initiated body s
    ])
    else refused (doubt_status status) error
initiate_result doubt_status doubt (unanswered message) = refused doubt message

unfoldable pub initiate_deposit : (is_configured : Bool) → HttpOutcome → InitiateResult
unfolding initiate_result
initiate_deposit is_configured outcome =
    if is_configured
    then initiate_result (λ _. false) false outcome
    else refused false not_configured

-- A 5xx may still have been processed; only a 4xx is a definite "no".
unfoldable pub initiate_withdrawal : (is_configured : Bool) → HttpOutcome → InitiateResult
unfolding initiate_result
initiate_withdrawal is_configured outcome =
    if is_configured
    then initiate_result (λ status. leb 500 status) true outcome
    else refused false not_configured

abbrev pub no_status : Text → StatusResult
no_status message = record {
  ok = false;
  transaction_status = none;
  external_reference = none;
  provider_ref = none;
  financial_transaction_id = none;
  amount = none;
  currency = none;
  error_message = some message;
}

abbrev upper_of : Option Text → Option Text
upper_of none = none
upper_of (some s) = some (upper s)

get_status_reply : HttpOutcome → StatusResult
get_status_reply (answered status response_ok body error) =
    if is_accepted status response_ok
    then (elim (parse_transaction_status body.transaction_status) [
      | none ↦ no_status invalid_status
      | some s ↦ record {
        ok = true;
        transaction_status = some s;
        external_reference = string_or_undefined body.external_reference;
        provider_ref = string_or_undefined body.ssentezo_wallet_reference;
        financial_transaction_id = string_or_undefined body.financial_transaction_id;
        amount = body.amount;
        currency = upper_of (string_or_undefined body.currency);
        error_message = none;
      }
    ])
    else no_status error
get_status_reply (unanswered message) = no_status message

unfoldable pub get_status : (is_configured : Bool) → HttpOutcome → StatusResult
unfolding get_status_reply
get_status is_configured outcome =
    if is_configured then get_status_reply outcome else no_status not_configured

-- The interceptor: a request whose error came before any connection is sent again, at most twice.
-- `attempts` are the outcomes of the sends, each with whether it failed before connecting; the
-- result is the outcome that the caller sees and the number of requests sent.
pub data Attempt : Type 0 where
  before_connect : Text → Attempt
  delivered : HttpOutcome → Attempt

abbrev pub max_retries : ℕ
max_retries = 2

pub send_from : (retries_left : ℕ) → (ℕ → Attempt) → ℕ → HttpOutcome × ℕ
send_from zero attempt n = elim (attempt n) [
  | delivered outcome ↦ (outcome, n + 1)
  | before_connect message ↦ (unanswered message, n + 1)
]
send_from (suc left) attempt n = elim (attempt n) [
  | delivered outcome ↦ (outcome, n + 1)
  | before_connect message ↦ send_from left attempt (n + 1)
]

unfoldable pub send_request : (ℕ → Attempt) → HttpOutcome × ℕ
unfolding send_from
send_request attempt = send_from max_retries attempt 0
