-- ===== src/Gateway/Tests.antt =====
-- The gateway's client at concrete answers.
use netcam.Prelude.{
  ℕ, zero, suc, ◌<◌, ◌≤◌, ◌≡◌, ◌↔◌, refl, Bool, true, false, none, some, Text, codes, [],
}
use netcam.Gateway.{
  HttpOutcome, answered, unanswered, ReplyData, Attempt, before_connect, delivered, succeeded,
  parse_transaction_status, initiate_deposit, initiate_withdrawal, get_status, send_request,
}
use netcam.Gateway.Answers.{IsYes, initiate_withdrawal_definite_iff, get_status-ok_iff}
use netcam.Prelude.Strings.{upper}
use netcam.Gateway.Retries.{is_before_connect, send_request_safe}

abbrev body : ReplyData
body = record {
  transaction_status = some (codes "Succeeded");
  external_reference = none;
  ssentezo_wallet_reference = some (codes "w-1");
  financial_transaction_id = some [];
  amount = some 500;
  currency = some (codes "ugx");
}

abbrev created : HttpOutcome
created = answered 202 true body []

parse_test : parse_transaction_status body.transaction_status ≡ some succeeded
unfolding parse_transaction_status
parse_test = refl

currency_test : (get_status true created).currency ≡ some (codes "UGX")
unfolding get_status parse_transaction_status
currency_test = refl

-- A deposit that got no answer is reported as failed, not as uncertain.
deposit_test : (initiate_deposit true (unanswered [])).uncertain ≡ false
unfolding initiate_deposit
deposit_test = refl

abbrev flaky : ℕ → Attempt
flaky zero = before_connect (codes "EAI_AGAIN")
flaky (suc _) = delivered created

flaky_test : (send_request flaky).1 ≡ 2
unfolding send_request
flaky_test = refl

initiate_withdrawal_definite_iff_example :
    (((initiate_withdrawal true created).ok ≡ false)
      × ((initiate_withdrawal true created).uncertain ≡ false))
    ↔ ((status : ℕ) × (response_ok : Bool) × (reply : ReplyData) × (error : Text) × (created
          ≡ answered status response_ok reply error)
        × ¬ IsYes status response_ok
        × (status < 500))
initiate_withdrawal_definite_iff_example = initiate_withdrawal_definite_iff created

get_status-ok_iff_example :
    (((get_status true created).ok ≡ true)
      × ((get_status true created).transaction_status ≡ some succeeded))
    ↔ ((code : ℕ) × (response_ok : Bool) × (reply : ReplyData) × (error : Text) × (word : Text)
        × (created ≡ answered code response_ok reply error)
        × IsYes code response_ok
        × (reply.transaction_status ≡ some word)
        × (upper word ≡ codes "SUCCEEDED"))
get_status-ok_iff_example = get_status-ok_iff created succeeded

send_request_safe_example :
    (1 ≤ (send_request flaky).1)
    × ((send_request flaky).1 ≤ 3)
    × (1 < (send_request flaky).1 → is_before_connect (flaky 0) ≡ true)
send_request_safe_example = send_request_safe flaky 0
