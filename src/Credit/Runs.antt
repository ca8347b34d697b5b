-- ===== src/Credit/Runs.antt =====
-- An account of ten credits.
use go_smb.Common.{List, ◌≤◌, ◌<◌, ◌≡◌, ◌+◌, ◌^◌, refl, false, [], ◌∷◌, arith}
use go_smb.Credit.{
  AccountOp, loan, lent, take_opening, Account, open_account, run_ops, init_request, loans, charges,
  opens,
}
use go_smb.Credit.Laws.{run_ops-expected, expected}

abbrev ten : Account
ten = record { capacity = 10; balance = 4; opening = 3 }

abbrev history : List AccountOp
history = charges 20 30 ∷ loans false 3 ∷ opens ∷ charges 2 7 ∷ loans false 5 ∷ []

-- After the history.
abbrev day : Account
day = record { capacity = 10; balance = 4; opening = 5 }

run_ops-expected_example :
    (run_ops (record { capacity = 10; balance = 1; opening = 0 }) history
      ≡ expected (record { capacity = 10; balance = 1; opening = 0 }) history)
    × (day.balance ≤ 10)
    × (day.opening < 2 ^ 16)
    × (init_request day + day.balance ≡ 10)
    × (loan false 12 day ≡ (record { capacity = 10; balance = 0; opening = 5 }, lent 4 false))
    × (take_opening day ≡ (record { capacity = 10; balance = 4; opening = 0 }, 5))
unfolding open_account go_smb.Credit.apply_op
run_ops-expected_example =
    run_ops-expected 10 history (record { capacity = 10; balance = 1; opening = 0 }) 12
      (omega arith) refl
