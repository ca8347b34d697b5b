-- ===== src/Conn/Setup.antt =====
-- server/server.go, `sessionServerSetup` and `sessionServerSetupChallenge`, with internal/smb2/request.go's
-- `SessionSetupRequestDecoder` and server/kdf.go. The ciphers, the hashes and the authenticator behind SPNEGO are parameters.
use go_smb.Common.{
  ℕ, ◌+◌, ◌-◌, ◌%◌, ◌^◌, Bool, true, ◌||◌, Option, none, some, List, [], ◌∷◌, ◌++◌, take, ◌==◌,
  ◌!=◌, ltb, if◌then◌else◌, ◌>>=◌,
}
use go_smb.Common.Texts.{Text}
use go_smb.Bytes.{Slice, get_le, sub, elements}
use go_smb.Conn.Negotiate.{smb202, smb210, smb300, smb302, smb311, aes128_ccm, aes128_gcm}

-- `SessionSetupRequestDecoder`: offset and length are added as `uint16`.
unfoldable pub is_invalid_setup : Slice → Option Bool
is_invalid_setup r = if ltb r.len 24 then some true else do
  size ← get_le 2 r 0
  if size != 25
      then some true
      else do off ← get_le 2 r 12; n ← get_le 2 r 14; some (ltb (r.len + 64) ((off + n) % 2 ^ 16))

unfoldable pub security_buffer : Slice → Option (List ℕ)
security_buffer r = do
  off ← get_le 2 r 12
  if ltb off 88
      then some []
      else do n ← get_le 2 r 14; bs ← sub r (off - 64) ((off - 64 + n) % 2 ^ 16); some (elements bs)

-- An AEAD: nonce size, seal and open.
pub record Aead : Type 0 where
  pub nonce_size : ℕ
  pub seal : List ℕ → List ℕ → List ℕ → List ℕ
  pub unseal : List ℕ → List ℕ → List ℕ → Option (List ℕ)

-- The libraries' primitives, each given its key.
pub record Crypto : Type 0 where
  pub hmac_sha256 : List ℕ → List ℕ → List ℕ
  pub cmac_aes : List ℕ → List ℕ → List ℕ
  pub ccm : List ℕ → ℕ → Aead
  pub gcm : List ℕ → ℕ → Aead

-- `"SMB2AESCMAC\x00"`.
abbrev pub cmac_label : Text
cmac_label = 0x53 ∷ 0x4d ∷ 0x42 ∷ 0x32 ∷ 0x41 ∷ 0x45 ∷ 0x53 ∷ 0x43 ∷ 0x4d ∷ 0x41 ∷ 0x43 ∷ 0x00 ∷ []

-- `"SmbSign\x00"`.
abbrev pub smb_sign : Text
smb_sign = 0x53 ∷ 0x6d ∷ 0x62 ∷ 0x53 ∷ 0x69 ∷ 0x67 ∷ 0x6e ∷ 0x00 ∷ []

-- `"SMB2AESCCM\x00"`.
abbrev pub ccm_label : Text
ccm_label = 0x53 ∷ 0x4d ∷ 0x42 ∷ 0x32 ∷ 0x41 ∷ 0x45 ∷ 0x53 ∷ 0x43 ∷ 0x43 ∷ 0x4d ∷ 0x00 ∷ []

-- `"ServerIn \x00"`.
abbrev pub server_in : Text
server_in = 0x53 ∷ 0x65 ∷ 0x72 ∷ 0x76 ∷ 0x65 ∷ 0x72 ∷ 0x49 ∷ 0x6e ∷ 0x20 ∷ 0x00 ∷ []

-- `"ServerOut\x00"`.
abbrev pub server_out : Text
server_out = 0x53 ∷ 0x65 ∷ 0x72 ∷ 0x76 ∷ 0x65 ∷ 0x72 ∷ 0x4f ∷ 0x75 ∷ 0x74 ∷ 0x00 ∷ []

-- `"SMBSigningKey\x00"`.
abbrev pub signing_label : Text
signing_label =
    0x53 ∷ 0x4d ∷ 0x42 ∷ 0x53 ∷ 0x69 ∷ 0x67 ∷ 0x6e ∷ 0x69 ∷ 0x6e ∷ 0x67 ∷ 0x4b ∷ 0x65 ∷ 0x79 ∷ 0x00
    ∷ []

-- `"SMBC2CCipherKey\x00"`.
abbrev pub c2c_label : Text
c2c_label =
    0x53 ∷ 0x4d ∷ 0x42 ∷ 0x43 ∷ 0x32 ∷ 0x43 ∷ 0x43 ∷ 0x69 ∷ 0x70 ∷ 0x68 ∷ 0x65 ∷ 0x72 ∷ 0x4b ∷ 0x65
    ∷ 0x79 ∷ 0x00 ∷ []

-- `"SMBS2SCipherKey\x00"`.
abbrev pub s2s_label : Text
s2s_label =
    0x53 ∷ 0x4d ∷ 0x42 ∷ 0x53 ∷ 0x32 ∷ 0x53 ∷ 0x43 ∷ 0x69 ∷ 0x70 ∷ 0x68 ∷ 0x65 ∷ 0x72 ∷ 0x4b ∷ 0x65
    ∷ 0x79 ∷ 0x00 ∷ []

-- server/kdf.go.
unfoldable pub kdf : Crypto → List ℕ → Text → List ℕ → List ℕ
kdf lib key label context =
    take 16
      (lib.hmac_sha256 key (0 ∷ 0 ∷ 0 ∷ 1 ∷ label ++ (0 ∷ context ++ (0 ∷ 0 ∷ 0 ∷ 0x80 ∷ []))))

-- What a session signs and encrypts with; a field that the code leaves nil is `none`.
pub record Keys : Type 0 where
  pub signer : Option (List ℕ → List ℕ)
  pub encrypter : Option Aead
  pub decrypter : Option Aead

abbrev pub no_keys : Keys
no_keys = record { signer = none; encrypter = none; decrypter = none }

-- The switch on the cipher.
abbrev pub cipher_of : Crypto → ℕ → List ℕ → Option Aead
cipher_of lib cipher_id key =
    if cipher_id == aes128_ccm
    then some (lib.ccm key 11)
    else if cipher_id == aes128_gcm
    then some (lib.gcm key 12)
    else none

-- The switch on the dialect and, at SMB 3.1.1, on the cipher.
unfoldable pub session_keys : Crypto → ℕ → ℕ → List ℕ → List ℕ → Keys
session_keys lib dialect cipher_id preauth key =
    if dialect == smb202 || dialect == smb210
    then record no_keys { signer = some (lib.hmac_sha256 key) }
    else if dialect == smb300 || dialect == smb302
    then record {
      signer = some (lib.cmac_aes (kdf lib key cmac_label smb_sign));
      encrypter = some (lib.ccm (kdf lib key ccm_label server_in) 11);
      decrypter = some (lib.ccm (kdf lib key ccm_label server_out) 11);
    }
    else if dialect == smb311
    then record {
      signer = some (lib.cmac_aes (kdf lib key signing_label preauth));
      encrypter = cipher_of lib cipher_id (kdf lib key c2c_label preauth);
      decrypter = cipher_of lib cipher_id (kdf lib key s2s_label preauth);
    }
    else no_keys
