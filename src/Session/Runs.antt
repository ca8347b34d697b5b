-- ===== src/Session/Runs.antt =====
-- A session signs and verifies an echo.
use go_smb.Common.{
  ◌-◌, length, replicate, [], ◌∷◌, ◌≡◌, refl, true, some, if◌then◌else◌, take, drop, bit_and, ◌==◌,
  arith,
}
use go_smb.Fixtures.{echo, alice}
use go_smb.Bytes.{Slice}
use go_smb.Session.Encryption.{decrypt-encrypt}
use go_smb.Session.{
  Session, encrypt, decrypt, sign, verify, equal_bytes, guest_or_null, zero_signature,
}
use go_smb.Session.Laws.{sign-verify, verify_lem, with_signature, signed_bytes, cleared}

sign-verify_example :
    (q : Slice) × (sign alice (echo 0 9) ≡ some q) × (verify alice q ≡ some (q, true))
sign-verify_example =
    sign-verify alice (echo 0 9) (omega arith) (omega arith) refl refl (λ bs. refl)
      (λ bs. omega arith)

verify_lem_example :
    verify alice (echo 0 9)
    ≡ some (
        if bit_and alice.session_flags guest_or_null == 0
        then (
          with_signature (alice.verifier (signed_bytes (echo 0 9))) (echo 0 9),
          equal_bytes
              (take 16 (drop 48 (echo 0 9).bytes))
              (take 16 (alice.verifier (signed_bytes (echo 0 9)))),
        )
        else (cleared (echo 0 9), equal_bytes (take 16 (drop 48 (echo 0 9).bytes)) zero_signature))
verify_lem_example = verify_lem alice (echo 0 9) (omega arith) (omega arith) (λ bs. omega arith)

-- A cipher that hides nothing.
abbrev plain : Session
plain = record alice { unseal = λ nonce text ad. some (take (length text - 16) text) }

decrypt-encrypt_example :
    (q : Slice) × (encrypt plain (replicate 12 5) (1 ∷ 2 ∷ 3 ∷ []) ≡ some q)
    × (decrypt plain q ≡ some (some (1 ∷ 2 ∷ 3 ∷ [])))
decrypt-encrypt_example =
    decrypt-encrypt plain (replicate 12 5) (1 ∷ 2 ∷ 3 ∷ []) refl (omega arith) (omega arith)
      (λ ad. refl) (λ ad. refl)
