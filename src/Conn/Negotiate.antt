-- ===== src/Conn/Negotiate.antt =====
-- server/server.go, `ServerNegotiator.negotiate` and `makeResponse`, with the decoders of the request and of its
-- negotiate contexts (internal/smb2/request.go, internal/smb2/smb2.go). A result is `none` for a panic and `failed`
-- for an error, which ends `Run`. The clock, the salt and the SPNEGO token are not in the response here.
pub mod Laws
mod Runs
use go_smb.Common.{
  ℕ, zero, suc, ◌+◌, ◌-◌, ◌*◌, ◌/◌, ◌%◌, ◌^◌, Bool, true, false, not, ◌&&◌, ◌||◌, Option, none,
  some, List, [], ◌∷◌, ◌++◌, length, ◌==◌, ◌!=◌, ltb, leb, if◌then◌else◌, ◌>>=◌, bit_and, bit_or,
}
use go_smb.Common.Texts.{Text, equal_bytes}
use go_smb.Bytes.{Slice, read, index, get_le, from, sub, elements}
use go_smb.Receive.{smb2_session_setup, smb2_negotiate}
use go_smb.Packet.{get, command, is_smb1, body, flags, status, flags_server_to_redir}

-- An error, or a result.
pub data Outcome (A : Type 0) : Type 0 where
  failed : Outcome A
  done : A → Outcome A

abbrev pub status_more_processing_required : ℕ
status_more_processing_required = 0xc000_0016

abbrev pub accepted : Slice → Option (Outcome Slice)
accepted pkt = do data_of ← body pkt; some (done data_of)

-- `accept` for the two commands that set up a session: the data, unless a packet with the flag of a response has a
-- status that is an error for the command. `acceptError` makes that error of the data.
unfoldable pub accept : ℕ → Slice → Option (Outcome Slice)
accept cmd pkt = do
  given ← command pkt
  if given != cmd then some failed else do
    f ← get flags pkt
    if bit_and f flags_server_to_redir == 0 then accepted pkt else do
      s ← get status pkt
      if s == 0 || cmd == smb2_session_setup && s == status_more_processing_required
          then accepted pkt
          else some failed

-- `NegotiateRequestDecoder`.
unfoldable pub is_invalid_negotiate : Slice → Option Bool
is_invalid_negotiate r = if ltb r.len 36 then some true else do
  size ← get_le 2 r 0
  if size != 36
      then some true
      else do off ← get_le 4 r 28; some (off % 8 != 0 || ltb (r.len + 36) off)

-- The first `n` 16-bit numbers of a slice that has them.
abbrev pub get_words : ℕ → ℕ → Slice → Option (List ℕ)
get_words zero o r = some []
get_words (suc n) o r = do w ← get_le 2 r o; ws ← get_words n (o + 2) r; some (w ∷ ws)

-- The end of the slice is a `uint16`.
unfoldable pub dialects : Slice → Option (List ℕ)
dialects r = do
  count ← get_le 2 r 2
  bs ← sub r 36 ((36 + 2 * count) % 2 ^ 16)
  get_words (bs.len / 2) 0 bs

unfoldable pub negotiate_context_list : Slice → Option Slice
negotiate_context_list r = do
  off ← get_le 4 r 28
  if ltb off 64 then some (record { bytes = []; len = 0 }) else from r (off - 64)

-- `NegotiateContextDecoder`.
unfoldable pub is_invalid_context : Slice → Option Bool
is_invalid_context ctx =
    if ltb ctx.len 8 then some true else do n ← get_le 2 ctx 2; some (ltb ctx.len (8 + n))

unfoldable pub context_data : Slice → Option Slice
context_data ctx = do n ← get_le 2 ctx 2; sub ctx 8 ((8 + n) % 2 ^ 16)

abbrev pub roundup : ℕ → ℕ → ℕ
roundup x align = (x + (align - 1)) / align * align

unfoldable pub next_context : Slice → Option ℕ
next_context ctx = do n ← get_le 2 ctx 2; some (roundup (8 + n) 8)

-- `HashContextDataDecoder` and `CipherContextDataDecoder`.
unfoldable pub is_invalid_hash : Slice → Option Bool
is_invalid_hash h =
    if ltb h.len 4
    then some true
    else do count ← get_le 2 h 0; salt ← get_le 2 h 2; some (ltb h.len (4 + count * 2 + salt))

unfoldable pub hash_algorithms : Slice → Option (List ℕ)
hash_algorithms h = do bs ← from h 4; count ← get_le 2 h 0; get_words count 0 bs

unfoldable pub is_invalid_cipher : Slice → Option Bool
is_invalid_cipher c =
    if ltb c.len 2 then some true else do count ← get_le 2 c 0; some (ltb c.len (2 + count * 2))

unfoldable pub ciphers : Slice → Option (List ℕ)
ciphers c = do bs ← from c 2; count ← get_le 2 c 0; get_words count 0 bs

abbrev pub smb2_unknown : ℕ
smb2_unknown = 0x2ff

abbrev pub smb202 : ℕ
smb202 = 0x202

abbrev pub smb210 : ℕ
smb210 = 0x210

abbrev pub smb300 : ℕ
smb300 = 0x300

abbrev pub smb302 : ℕ
smb302 = 0x302

abbrev pub smb311 : ℕ
smb311 = 0x311

-- The loop over the dialects that the client offers, from the one chosen so far.
abbrev pub best_dialect : ℕ → List ℕ → ℕ
best_dialect best [] = best
best_dialect best (d ∷ ds) =
    if ltb best d && leb d smb311 then best_dialect d ds else best_dialect best ds

unfoldable pub choose_dialect : List ℕ → ℕ
choose_dialect ds =
    let best = best_dialect smb2_unknown ds in if best == smb2_unknown then smb210 else best

abbrev pub sha512_id : ℕ
sha512_id = 1

abbrev pub aes128_ccm : ℕ
aes128_ccm = 1

abbrev pub aes128_gcm : ℕ
aes128_gcm = 2

-- The fields of `conn` that a negotiation sets.
pub record Params : Type 0 where
  pub require_signing : Bool
  pub capabilities : ℕ
  pub dialect : ℕ
  pub sequence_window : ℕ
  pub preauth_hash_id : ℕ
  pub preauth_hash : List ℕ
  pub cipher_id : ℕ
  pub posix_extensions : Bool

-- What of `Server` and `ServerNegotiator` it reads; `sha512` is the hash.
pub record Config : Type 0 where
  pub require_signing : Bool
  pub enable_posix : Bool
  pub sha512 : List ℕ → List ℕ

abbrev pub calc_preauth_hash : Config → List ℕ → Params → Params
calc_preauth_hash cfg pkt c =
    if c.dialect == smb311 && c.preauth_hash_id == sha512_id
    then record c { preauth_hash = cfg.sha512 (c.preauth_hash ++ pkt) }
    else c

-- The first cipher that the server knows, else the one that it had.
abbrev pub pick_cipher : ℕ → List ℕ → ℕ
pick_cipher old [] = old
pick_cipher old (c ∷ cs) = if c == aes128_ccm || c == aes128_gcm then c else pick_cipher old cs

abbrev pub posix_tag : Text
posix_tag =
    0x93 ∷ 0xad ∷ 0x25 ∷ 0x50 ∷ 0x9c ∷ 0xb4 ∷ 0x11 ∷ 0xe7 ∷ 0xb4 ∷ 0x23 ∷ 0x83 ∷ 0xde ∷ 0x96 ∷ 0x8b
    ∷ 0xcd ∷ 0x7c ∷ []

-- The cases of the switch on the type of a context.
unfoldable pub preauth_context : Config → Slice → Slice → Params → Option (Outcome Params)
preauth_context cfg pkt bytes c = do
  broken ← is_invalid_hash bytes
  if broken then some failed else do
    algs ← hash_algorithms bytes
    some (elim algs [
      | [] ↦ failed
      | a ∷ more ↦ elim more [
        | [] ↦ done (calc_preauth_hash cfg (elements pkt) (record c { preauth_hash_id = a }))
        | b ∷ rest ↦ failed
      ]
    ])

unfoldable pub cipher_context : Slice → Params → Option (Outcome Params)
cipher_context bytes c = do
  broken ← is_invalid_cipher bytes
  if broken then some failed else do
    cs ← ciphers bytes
    let picked = pick_cipher c.cipher_id cs in
        some (
          if picked == aes128_ccm || picked == aes128_gcm
          then done (record c { cipher_id = picked })
          else failed)

unfoldable pub one_context : Config → Slice → Slice → Params → Option (Outcome Params)
one_context cfg pkt ctx c = do
  kind ← get_le 2 ctx 0
  if kind == 1
      then context_data ctx >>= (λ bytes. preauth_context cfg pkt bytes c)
      else if kind == 2
      then context_data ctx >>= (λ bytes. cipher_context bytes c)
      else if kind == 0x100 && cfg.enable_posix
      then context_data ctx >>= (λ bytes. some (
          done (
            if equal_bytes (elements bytes) posix_tag
            then record c { posix_extensions = true }
            else c)))
      else some (done c)

-- The loop over the contexts, on the count that the request gives.
unfoldable pub walk_contexts : Config → Slice → ℕ → Slice → Params → Option (Outcome Params)
walk_contexts cfg pkt zero list c = some (done c)
walk_contexts cfg pkt (suc n) list c = do
  broken ← is_invalid_context list
  if broken then some failed else do
    next ← one_context cfg pkt list c
    elim next [
      | failed ↦ some failed
      | done c' ↦ do
        off ← next_context list
        rest ← if ltb list.len off then some (record { bytes = []; len = 0 }) else from list off
        walk_contexts cfg pkt n rest c'
    ]

pub data ContextSent : Type 0 where
  hash_context : ℕ → ContextSent
  cipher_context_sent : ℕ → ContextSent
  posix_context : ContextSent

pub record NegotiateResponse : Type 0 where
  pub security_mode : ℕ
  pub dialect_revision : ℕ
  pub capabilities : ℕ
  pub contexts : List ContextSent

-- LARGE_MTU | ENCRYPTION | DFS | PERSISTENT_HANDLES.
abbrev pub server_capabilities : ℕ
server_capabilities = 0x55

abbrev pub response_of : Config → ℕ → List ContextSent → NegotiateResponse
response_of cfg specified contexts = record {
  security_mode = if cfg.require_signing then 2 else 1;
  dialect_revision = specified;
  capabilities = server_capabilities;
  contexts = contexts;
}

-- `makeResponse` for the dialect that the negotiator has; `none` is the nil response of its error.
unfoldable pub make_response : Config → ℕ → Params → Option NegotiateResponse
make_response cfg specified c =
    let plain =
      specified == smb2_unknown
      || (specified == smb202
          || (specified == smb210 || (specified == smb300 || specified == smb302))) in
    if specified == smb311
    then some (
        response_of cfg specified (
          hash_context sha512_id
          ∷ cipher_context_sent c.cipher_id
          ∷ (if c.posix_extensions then posix_context ∷ [] else [])))
    else if plain
    then some (response_of cfg specified [])
    else none

abbrev pub respond : Config → ℕ → Params → Option (Outcome (Params × NegotiateResponse))
respond cfg specified c = do rsp ← make_response cfg specified c; some (done (c, rsp))

-- The rest of `negotiate`, once the request is accepted.
unfoldable pub negotiate_request :
    Config → Slice → Slice → Params → Option (Outcome (Params × NegotiateResponse))
negotiate_request cfg pkt r c = do
  ds ← dialects r
  mode ← get_le 2 r 4
  wanted ← get_le 4 r 8
  let specified = choose_dialect ds in
      let c1 : Params = record c {
        require_signing = cfg.require_signing || bit_and mode 2 != 0;
        capabilities = bit_and server_capabilities wanted;
        dialect = specified;
        sequence_window = 1;
      } in
      if specified != smb311 then respond cfg specified c1 else do
        list ← negotiate_context_list r
        count ← get_le 2 r 32
        walked ← walk_contexts cfg pkt count list c1
        elim walked [ failed ↦ some failed | done c2 ↦ respond cfg specified c2 ]

-- `ServerNegotiator.negotiate`: the parameters and the response sent. `PrepareResponse` writes through the
-- response, so a nil one is a panic.
unfoldable pub negotiate : Config → Slice → Params → Option (Outcome (Params × NegotiateResponse))
negotiate cfg pkt c = do
  smb1 ← is_smb1 pkt
  if smb1 then respond cfg smb2_unknown c else do
    res ← accept smb2_negotiate pkt
    elim res [
      | failed ↦ some failed
      | done r ↦ do
        broken ← is_invalid_negotiate r
        if broken then some failed else negotiate_request cfg pkt r c
    ]
