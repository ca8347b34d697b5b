-- ===== src/Conn/Packets.antt =====
-- Packets that set up a session, for the examples.
use go_smb.Common.{ℕ, List, [], ◌∷◌, ◌++◌}
use go_smb.Common.{false, some}
use go_smb.Bytes.{Slice, of_list}
use go_smb.Conn.Negotiate.{Params, Config, aes128_gcm}
use go_smb.Conn.Setup.{Aead, Crypto}
use go_smb.Conn.States.{Server}

-- The header of a request: its command and the lowest byte of its session id.
abbrev request_header : ℕ → ℕ → List ℕ
request_header cmd id =
    254 ∷ 83 ∷ 77 ∷ 66 ∷ 64 ∷ 0 ∷ 0 ∷ 0 ∷ 0 ∷ 0 ∷ 0 ∷ 0 ∷ cmd ∷ 0 ∷ 1 ∷ 0 ∷ 0 ∷ 0 ∷ 0 ∷ 0 ∷ 0 ∷ 0
    ∷ 0 ∷ 0 ∷ 7 ∷ 0 ∷ 0 ∷ 0 ∷ 0 ∷ 0 ∷ 0 ∷ 0 ∷ 0 ∷ 0 ∷ 0 ∷ 0 ∷ 0 ∷ 0 ∷ 0 ∷ 0 ∷ id ∷ 0 ∷ 0 ∷ 0 ∷ 0 ∷ 0
    ∷ 0 ∷ 0 ∷ 0 ∷ 0 ∷ 0 ∷ 0 ∷ 0 ∷ 0 ∷ 0 ∷ 0 ∷ 0 ∷ 0 ∷ 0 ∷ 0 ∷ 0 ∷ 0 ∷ 0 ∷ 0 ∷ []

-- The body of a negotiate request.
abbrev pub negotiate_bytes : ℕ → List ℕ → List ℕ
negotiate_bytes count ds =
    36 ∷ 0 ∷ count ∷ 0 ∷ 1 ∷ 0 ∷ 0 ∷ 0 ∷ 85 ∷ 0 ∷ 0 ∷ 0 ∷ 0 ∷ 0 ∷ 0 ∷ 0 ∷ 0 ∷ 0 ∷ 0 ∷ 0 ∷ 0 ∷ 0 ∷ 0
    ∷ 0 ∷ 0 ∷ 0 ∷ 0 ∷ 0 ∷ 0 ∷ 0 ∷ 0 ∷ 0 ∷ 0 ∷ 0 ∷ 0 ∷ 0 ∷ ds

-- A negotiate request: the count of dialects, and the dialects' bytes.
abbrev pub negotiate_packet : ℕ → List ℕ → Slice
negotiate_packet count ds = of_list (request_header 0 0 ++ negotiate_bytes count ds)

-- A session setup with one byte of token.
abbrev pub setup_packet : ℕ → ℕ → Slice
setup_packet id token = of_list (
    request_header 1 id
    ++ (25 ∷ 0 ∷ 0 ∷ 1 ∷ 0 ∷ 0 ∷ 0 ∷ 0 ∷ 0 ∷ 0 ∷ 0 ∷ 0 ∷ 88 ∷ 0 ∷ 1 ∷ 0 ∷ 0 ∷ 0 ∷ 0 ∷ 0 ∷ 0 ∷ 0 ∷ 0
        ∷ 0 ∷ token ∷ []))

-- The parameters of a new connection.
abbrev pub new_params : Params
new_params = record {
  require_signing = false;
  capabilities = 0;
  dialect = 0;
  sequence_window = 0;
  preauth_hash_id = 0;
  preauth_hash = [];
  cipher_id = aes128_gcm;
  posix_extensions = false;
}

abbrev pub plain_config : Config
plain_config = record { require_signing = false; enable_posix = false; sha512 = λ bs. bs }

abbrev no_aead : Aead
no_aead = record { nonce_size = 12; seal = λ n t a. t; unseal = λ n t a. some t }

abbrev toy_crypto : Crypto
toy_crypto = record {
  hmac_sha256 = λ key bs. key ++ bs;
  cmac_aes = λ key bs. key ++ bs;
  ccm = λ key n. no_aead;
  gcm = λ key n. no_aead;
}

-- A server that takes every token.
abbrev pub open_server : Server
open_server = record {
  config = plain_config;
  allow_guest = false;
  crypto = toy_crypto;
  challenge = λ token. some (1 ∷ token);
  authenticate = λ token. some ([], token);
}
