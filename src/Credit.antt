-- ===== src/Credit.antt =====
-- server/credit.go: the account of credits. The buffered channel `balance` is its capacity and the
-- number of tokens in it. uint16 arithmetic wraps.
pub mod Laws
mod Runs
use go_smb.Common.{
  ℕ, zero, suc, ◌+◌, ◌-◌, ◌%◌, ◌^◌, Bool, true, false, Option, none, some, List, [], ◌∷◌, ◌==◌,
  ◌&&◌, ltb, if◌then◌else◌,
}

pub record Account : Type 0 where
  pub capacity : ℕ
  pub balance : ℕ
  pub opening : ℕ

-- The initial send blocks for ever (`none`) on a channel without room.
unfoldable pub open_account : ℕ → Option Account
open_account max_credit_balance =
    if ltb 0 max_credit_balance
    then some (record { capacity = max_credit_balance; balance = 1; opening = 0 })
    else none

unfoldable pub init_request : Account → ℕ
init_request a = (a.capacity - a.balance) % 2 ^ 16

-- `loan` returns credits and whether they are all that was asked for; or it returns the error of a
-- context that is done; or it waits.
pub data Loan : Type 0 where
  lent : (credits : ℕ) → (complete : Bool) → Loan
  cancelled : Loan
  waiting : Loan

-- `for i := uint16(1); i < creditCharge; i++`: `n` rounds are left.
abbrev pub loan_loop : ℕ → ℕ → ℕ → Account → Account × Loan
loan_loop zero i credit_charge a = (a, lent credit_charge true)
loan_loop (suc n) i credit_charge a =
    let rest = loan_loop n (i + 1) credit_charge (record a { balance = a.balance - 1 }) in
    if a.balance == 0 then (a, lent i false) else rest

-- `done`: the first select takes the branch of the context. With a token at hand Go may take either.
unfoldable pub loan : Bool → ℕ → Account → Account × Loan
loan done credit_charge a =
    if done
    then (a, cancelled)
    else if a.balance == 0
    then (a, waiting)
    else loan_loop (credit_charge - 1) 1 credit_charge (record a { balance = a.balance - 1 })

-- `opening()`: the counter is read and reset.
unfoldable pub take_opening : Account → Account × ℕ
take_opening a = (record a { opening = 0 }, a.opening)

-- `for i := uint16(0); i < granted; i++`: a full channel ends the loop.
abbrev pub grant_loop : ℕ → Account → Account
grant_loop zero a = a
grant_loop (suc n) a =
    let rest = grant_loop n (record a { balance = a.balance + 1 }) in
    if ltb a.balance a.capacity then rest else a

unfoldable pub charge : ℕ → ℕ → Account → Account
charge granted requested a =
    if granted == 0 && requested == 0
    then a
    else grant_loop granted (
        if ltb granted requested
        then record a { opening = (a.opening + (requested - granted)) % 2 ^ 16 }
        else a)

-- A history of an account.
pub data AccountOp : Type 0 where
  loans : Bool → ℕ → AccountOp
  charges : ℕ → ℕ → AccountOp
  opens : AccountOp

unfoldable pub apply_op : Account → AccountOp → Account
unfolding loan charge take_opening
apply_op a (loans done n) = (loan done n a).0
apply_op a (charges granted requested) = charge granted requested a
apply_op a opens = (take_opening a).0

abbrev pub run_ops : Account → List AccountOp → Account
run_ops a [] = a
run_ops a (op ∷ ops) = run_ops (apply_op a op) ops
