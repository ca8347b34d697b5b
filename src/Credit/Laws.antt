-- ===== src/Credit/Laws.antt =====
-- server/credit.go: the account in arithmetic, and its histories.
use go_smb.Common.{
  ℕ, zero, suc, ◌+◌, ◌-◌, ◌%◌, ◌^◌, ◌≤◌, ◌<◌, ◌≡◌, refl, Bool, true, false, Option, none, some,
  List, [], ◌∷◌, arith, ◌==◌, ltb, leb, min, inl, inr, Bool-cases, if◌then◌else◌, ap,
}
use go_smb.Credit.{
  Account, Loan, lent, waiting, open_account, init_request, loan, loan_loop, take_opening,
  grant_loop, charge, AccountOp, loans, charges, opens, apply_op, run_ops,
}

pub record IsAccount (a : Account) : Type 0 where
  pub within : a.balance ≤ a.capacity
  pub opening_range : a.opening < 2 ^ 16

-- The loop takes one credit a round until the charge is covered or the balance is gone.
loan_loop_lem :
    (n i c : ℕ) (a : Account)
    → i + n ≡ c
    → loan_loop n i c a ≡ (
        if leb n a.balance
        then (record a { balance = a.balance - n }, lent c true)
        else (record a { balance = 0 }, lent (i + a.balance) false))
loan_loop_lem zero i c a e = ground arith
loan_loop_lem (suc n) i c a e =
    ground (arith, loan_loop_lem n (i + 1) c (record a { balance = a.balance - 1 }))

-- A loan with credits at hand hands out the charge or the whole balance, whichever is less, takes
-- just that from the balance, and says whether it was the whole charge.
pub loan_lem :
    (c : ℕ) (a : Account)
    → 0 < c
    → 0 < a.balance
    → loan false c a
      ≡ (record a { balance = a.balance - c }, lent (min c a.balance) (leb c a.balance))
unfolding loan
loan_lem c a pos some_left =
    ground (arith, loan_loop_lem (c - 1) 1 c (record a { balance = a.balance - 1 }))

-- A loan of no credits takes one all the same and reports none, as complete.
pub loan_zero_leaks :
    (a : Account)
    → 0 < a.balance
    → loan false 0 a ≡ (record a { balance = a.balance - 1 }, lent 0 true)
unfolding loan
loan_zero_leaks a h = ground arith

grant_loop_lem :
    (n : ℕ) (a : Account)
    → a.balance ≤ a.capacity
    → grant_loop n a ≡ record a { balance = min a.capacity (a.balance + n) }
grant_loop_lem zero a h = ground arith
grant_loop_lem (suc n) a h = ground (arith, grant_loop_lem n (record a { balance = a.balance + 1 }))

-- A charge adds the granted credits up to the capacity, and what was requested beyond them to the
-- opening, which wraps at 2 ^ 16.
pub charge_lem :
    (granted requested : ℕ) (a : Account)
    → IsAccount a
    → charge granted requested a ≡ record a {
      balance = min a.capacity (a.balance + granted);
      opening = (a.opening + (requested - granted)) % 2 ^ 16;
    }
unfolding charge
charge_lem granted requested a ok = ground (
  arith,
  grant_loop_lem granted a,
  grant_loop_lem granted (record a { opening = (a.opening + (requested - granted)) % 2 ^ 16 }),
)

loan_loop_keeps :
    (n i c : ℕ) (a : Account)
    → ((loan_loop n i c a).0.balance ≤ a.balance)
      × ((loan_loop n i c a).0.capacity ≡ a.capacity)
      × ((loan_loop n i c a).0.opening ≡ a.opening)
loan_loop_keeps zero i c a = omega arith
loan_loop_keeps (suc n) i c a =
    ground (arith, loan_loop_keeps n (i + 1) c (record a { balance = a.balance - 1 }))

apply_op-IsAccount :
    (op : AccountOp) (a : Account)
    → IsAccount a
    → IsAccount (apply_op a op) × ((apply_op a op).capacity ≡ a.capacity)
unfolding apply_op loan take_opening
apply_op-IsAccount (loans done n) a ok =
    ground (arith, loan_loop_keeps (n - 1) 1 n (record a { balance = a.balance - 1 }))
apply_op-IsAccount (charges granted requested) a ok =
    ground (arith, charge_lem granted requested a ok)
apply_op-IsAccount opens a ok = ground arith

run_ops-IsAccount :
    (ops : List AccountOp) (a : Account)
    → IsAccount a
    → IsAccount (run_ops a ops) × ((run_ops a ops).capacity ≡ a.capacity)
run_ops-IsAccount [] a ok = (ok, refl)
run_ops-IsAccount (op ∷ ops) a ok =
    let (ok', same) = apply_op-IsAccount op a ok in
    let (ok'', same') = run_ops-IsAccount ops (apply_op a op) ok' in
    (ok'', go_smb.Common.◌∙◌ same' same)

-- What an operation does to the account, in arithmetic: a loan takes what it can, and one credit at
-- least; a charge fills the balance up to the capacity and opens what was requested beyond it.
abbrev pub expected_op : Account → AccountOp → Account
expected_op a (loans true n) = a
expected_op a (loans false n) = record a { balance = a.balance - (if n == 0 then 1 else n) }
expected_op a (charges granted requested) = record a {
  balance = min a.capacity (a.balance + granted);
  opening = (a.opening + (requested - granted)) % 2 ^ 16;
}
expected_op a opens = record a { opening = 0 }

abbrev pub expected : Account → List AccountOp → Account
expected a [] = a
expected a (op ∷ ops) = expected (expected_op a op) ops

-- What a loan that is not cancelled answers.
abbrev pub expected_loan : ℕ → Account → Account × Loan
expected_loan n a =
    if a.balance == 0
    then (a, waiting)
    else (expected_op a (loans false n), lent (min n a.balance) (leb n a.balance))

loan-expected : (n : ℕ) (a : Account) → loan false n a ≡ expected_loan n a
unfolding loan
loan-expected zero a = ground arith
loan-expected (suc n) a =
    ground (arith, loan_loop_lem n 1 (suc n) (record a { balance = a.balance - 1 }))

apply_op-expected : (op : AccountOp) (a : Account) → IsAccount a → apply_op a op ≡ expected_op a op
unfolding apply_op loan take_opening
apply_op-expected (loans true n) a ok = refl
apply_op-expected (loans false n) a ok = ground (arith, loan-expected n a)
apply_op-expected (charges granted requested) a ok = charge_lem granted requested a ok
apply_op-expected opens a ok = refl

run_ops-expected_from :
    (ops : List AccountOp) (a : Account) → IsAccount a → run_ops a ops ≡ expected a ops
run_ops-expected_from [] a ok = refl
run_ops-expected_from (op ∷ ops) a ok =
    go_smb.Common.◌∙◌ (run_ops-expected_from ops (apply_op a op) (apply_op-IsAccount op a ok).0)
      (ap (λ b. expected b ops) (apply_op-expected op a ok))

-- An account of a capacity below 2 ^ 16, after any history of loans, charges and openings, is the
-- one that the same history in arithmetic gives. Its balance is within the capacity, its opening
-- within its type, and `initRequest` is just what the balance lacks. A loan that follows and is not
-- cancelled waits for credits if there are none, and else hands out the charge or the whole
-- balance, whichever is less, takes that (one credit for a charge of zero) and says whether it was
-- the whole charge; `opening` that follows hands out the opening and resets it.
pub run_ops-expected :
    (m : ℕ) (ops : List AccountOp) (a : Account) (n : ℕ)
    → m < 2 ^ 16
    → open_account m ≡ some a
    → let b = run_ops a ops in
      (b ≡ expected (record { capacity = m; balance = 1; opening = 0 }) ops)
      × (b.balance ≤ m)
      × (b.opening < 2 ^ 16)
      × (init_request b + b.balance ≡ m)
      × (loan false n b ≡ expected_loan n b)
      × (take_opening b ≡ (record b { opening = 0 }, b.opening))
unfolding open_account init_request take_opening
run_ops-expected m ops a n small e =
    let start : IsAccount a = ground arith in
    let cap : a.capacity ≡ m = ground arith in
    let (ok, same) = run_ops-IsAccount ops a start in
    let opened : a ≡ record { capacity = m; balance = 1; opening = 0 } = ground arith in
    (
      go_smb.Common.◌∙◌ (run_ops-expected_from ops a start) (ap (λ b. expected b ops) opened),
      ground arith,
      ground arith,
      ground arith,
      loan-expected n (run_ops a ops),
      refl,
    )
