-- ===== src/Gateway/Answers.antt =====
-- What the gateway's client makes of an answer.
use netcam.Prelude.{
  ℕ, Bool, true, false, some, ◌≡◌, ◌↔◌, ◌⊎◌, inl, inr, Option-cases, Bool-cases, none, ◌<◌, arith,
  Text, refl, ap, ◌∙◌, codes,
}
use netcam.Prelude.Strings.{upper, same_eq}
use netcam.Gateway.{
  HttpOutcome, answered, unanswered, ReplyData, TransactionStatus, parse_transaction_status,
  is_accepted, initiate_withdrawal, get_status, pending, succeeded, failed, indeterminate,
}

-- What the gateway calls a status.
abbrev pub word_of : TransactionStatus → Text
word_of pending = codes "PENDING"
word_of succeeded = codes "SUCCEEDED"
word_of failed = codes "FAILED"
word_of indeterminate = codes "INDETERMINATE"

-- An answer with code 200 or 202, whose body says "OK".
abbrev pub IsYes : ℕ → Bool → Type 0
IsYes code response_ok = ((code ≡ 200) ⊎ (code ≡ 202)) × (response_ok ≡ true)

is_accepted_iff :
    (code : ℕ) (response_ok : Bool) → (is_accepted code response_ok ≡ true) ↔ IsYes code response_ok
is_accepted_iff code response_ok = (λ h. (ground (arith, h), ground (arith, h)), λ h. ground arith)

parse_nothing : parse_transaction_status none ≡ none
unfolding parse_transaction_status
parse_nothing = refl

parse_of :
    (word : Text) (status : TransactionStatus)
    → upper word ≡ word_of status
    → parse_transaction_status (some word) ≡ some status
unfolding parse_transaction_status
parse_of word pending h = rw h refl
parse_of word succeeded h = rw h refl
parse_of word failed h = rw h refl
parse_of word indeterminate h = rw h refl

word_lem :
    (word : Text) (status : TransactionStatus)
    → parse_transaction_status (some word) ≡ some status
    → upper word ≡ word_of status
unfolding parse_transaction_status
word_lem word status h =
    let is = λ (s : TransactionStatus). same_eq (upper word) (word_of s) in
    ground (arith, h, is pending, is succeeded, is failed, is indeterminate)

-- A configured client reports a payout as a definite "no" exactly when the gateway answered with a
-- status below 500, and did not accept the request: an acceptance has the status 200 or 202 and the
-- response "OK". So a refusal with a status below 400 is definite too. In every other case without
-- success (no answer, a 5xx, an accepted request whose status it cannot read) the result is marked
-- uncertain.
pub initiate_withdrawal_definite_iff :
    (outcome : HttpOutcome)
    → let r = initiate_withdrawal true outcome in
      ((r.ok ≡ false) × (r.uncertain ≡ false)) ↔ (
        (status : ℕ) × (response_ok : Bool) × (body : ReplyData) × (error : Text) × (outcome
          ≡ answered status response_ok body error)
        × ¬ IsYes status response_ok
        × (status < 500))
unfolding initiate_withdrawal
initiate_withdrawal_definite_iff (answered status response_ok body error) = (
  λ h. (
    status,
    response_ok,
    body,
    error,
    refl,
    λ yes. absurd (ground (arith, (is_accepted_iff status response_ok).1 yes)),
    ground arith,
  ),
  λ (s, r, b, e, sent, not_taken, low). elim (Bool-cases (is_accepted status response_ok)) [
    | inl taken ↦ absurd (not_taken ((is_accepted_iff s r).0 (ground (arith, sent, taken))))
    | inr refused ↦ ground (arith, sent, refused, low)
  ],
)
initiate_withdrawal_definite_iff (unanswered message) = (λ h. ground arith, λ h. ground arith)

-- A configured client reports a status exactly when the gateway accepted the request, with the
-- status 200 or 202 and the response "OK", and the word in its answer is, in capitals, that of the
-- status.
pub get_status-ok_iff :
    (outcome : HttpOutcome) (status : TransactionStatus)
    → (((get_status true outcome).ok ≡ true)
        × ((get_status true outcome).transaction_status ≡ some status))
      ↔ ((code : ℕ) × (response_ok : Bool) × (body : ReplyData) × (error : Text) × (word : Text)
          × (outcome ≡ answered code response_ok body error)
          × IsYes code response_ok
          × (body.transaction_status ≡ some word)
          × (upper word ≡ word_of status))
unfolding get_status
get_status-ok_iff (answered code response_ok body error) status = (
  λ h. elim (Option-cases body.transaction_status) [
    | inl missing ↦ absurd (ground (arith, h, ap parse_transaction_status missing ∙ parse_nothing))
    | inr (word, said) ↦ (
      code,
      response_ok,
      body,
      error,
      word,
      refl,
      (is_accepted_iff code response_ok).0 (ground (arith, h)),
      said,
      word_lem word status (ground (arith, h, ap parse_transaction_status said)),
    )
  ],
  λ (s, r, b, e, w, sent, accepted, said, capitals).
      let taken = (is_accepted_iff s r).1 accepted in
      let parsed = ap parse_transaction_status said ∙ parse_of w status capitals in
      ground (arith, sent, taken, parsed),
)
get_status-ok_iff (unanswered message) status = (λ h. ground arith, λ h. ground arith)
