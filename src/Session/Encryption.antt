-- ===== src/Session/Encryption.antt =====
-- server/session.go, `encrypt` and `decrypt`.
use go_smb.Common.{
  ℕ, ◌+◌, ◌-◌, ◌≤◌, ◌<◌, ◌≡◌, sym, ap, ap₂, subst, ◌∙◌, none, some, List, ◌++◌, length, take, drop,
  replicate, arith, length-take, length-drop, length-replicate, take_all, drop-drop, take-take,
  take-append-take-drop, le→leb,
}
use go_smb.Bytes.{Slice, of_list, read, sub, from}
use go_smb.Bytes.Writes.{overwrite, write, writes, Fits, found}
use go_smb.Bytes.Writes.Laws.{
  length-overwrite, take-drop-overwrite_self, take-drop-overwrite_above, take-drop-overwrite_below,
  write_total, writes-Written, Says,
}
use go_smb.Packet.Transform as Transform
use go_smb.Session.Laws.{read_whole}
use go_smb.Session.{Session, encrypt, decrypt, transform_writes, seal_into}

-- The packet's bytes `B` behind the header's writes, with the sealed text and the signature.
module _ (n : ℕ) (B sealed : List ℕ) (room : length B ≡ 52 + n + 16)
    (wide : length sealed ≡ n + 16) where
  abbrev with_text : List ℕ
  with_text = overwrite B 52 sealed

  abbrev tag : List ℕ
  tag = take 16 (drop (52 + n) with_text)

  abbrev with_tag : List ℕ
  with_tag = overwrite with_text 4 tag

  length-tag : length tag ≡ 16
  length-tag = omega (
    arith,
    length-take 16 (drop (52 + n) with_text),
    length-drop (52 + n) with_text,
    length-overwrite B 52 sealed,
  )

  text_kept : take (n + 16) (drop 52 with_text) ≡ sealed
  text_kept =
      subst (λ w. take w (drop 52 with_text) ≡ sealed) wide
        (take-drop-overwrite_self B 52 sealed (omega arith))

  tag_kept : take 16 (drop 4 with_tag) ≡ tag
  tag_kept =
      subst (λ w. take w (drop 4 with_tag) ≡ tag) length-tag
        (take-drop-overwrite_self with_text 4 tag
          (omega (arith, length-tag, length-overwrite B 52 sealed)))

  -- Text and signature together are what was sealed.
  text-tag : take n (drop 52 with_tag) ++ take 16 (drop 4 with_tag) ≡ sealed
  text-tag =
      ap₂ (λ a b. a ++ b)
        (take-drop-overwrite_above with_text 52 n 4 tag (omega (arith, length-tag)))
        (tag_kept ∙ ap (take 16) (sym (drop-drop 52 n with_text)))
      ∙ take-append-take-drop n 16 (drop 52 with_text)
      ∙ text_kept

  -- Between the signature and the text nothing changed.
  header_kept : (o w : ℕ) → 20 ≤ o → o + w ≤ 52 → take w (drop o with_tag) ≡ take w (drop o B)
  header_kept o w low high =
      take-drop-overwrite_above with_text o w 4 tag (omega (arith, length-tag))
      ∙ take-drop-overwrite_below B o w 52 sealed high

unseal_cong :
    (s : Session) {a a' b b' c c' : List ℕ}
    → a ≡ a'
    → b ≡ b'
    → c ≡ c'
    → some (s.unseal a b c) ≡ some (s.unseal a' b' c')
unseal_cong s e f g = cc

transform_Fits : (s : Session) (nonce : List ℕ) (n : ℕ) → Fits 52 (transform_writes s nonce n)
transform_Fits s nonce n = ground (arith, length-take 16 nonce)

module _ (s : Session) (nonce pkt : List ℕ) (h : Slice) (len : h.len ≡ 52 + length pkt + 16)
    (capacity : length h.bytes ≡ 52 + length pkt + 16)
    (wide : (ad : List ℕ) → length (s.seal nonce pkt ad) ≡ length pkt + 16) where
  abbrev ad_of : List ℕ
  ad_of = take 32 (drop 20 h.bytes)

  abbrev sealed_of : List ℕ
  sealed_of = s.seal nonce pkt ad_of

  abbrev result : Slice
  result = record {
    bytes = with_tag (length pkt) h.bytes sealed_of capacity (wide ad_of);
    len = 52 + length pkt;
  }

  abbrev text_in : Slice
  text_in = record h { bytes = overwrite h.bytes 52 sealed_of }

  seal-step : write (seal_into sealed_of) h ≡ some text_in
  seal-step =
      write_total (seal_into sealed_of) h (52 + length sealed_of)
        (omega (arith, length-take (52 + length sealed_of - 52) sealed_of)) (omega arith)
        (omega (arith, wide ad_of)) (omega arith)
      ∙ ap (λ t. some (record h { bytes = overwrite h.bytes 52 t }))
          (take_all sealed_of (52 + length sealed_of - 52) (omega arith))

  abbrev tag_of : List ℕ
  tag_of = take 16 (drop (52 + length pkt) text_in.bytes)

  tag-step : read text_in (52 + length pkt) 16 ≡ some tag_of
  tag-step =
      read_whole text_in (52 + length pkt) 16 (omega (arith, length-overwrite h.bytes 52 sealed_of))

  sign-step :
      write (Transform.set_signature tag_of) text_in ≡ some (record h { bytes = result.bytes })
  sign-step =
      write_total (Transform.set_signature tag_of) text_in 20 (omega (arith, length-take 16 tag_of))
        (omega arith) (omega arith) (omega (arith, length-overwrite h.bytes 52 sealed_of))
      ∙ ap (λ t. some (record h { bytes = overwrite text_in.bytes 4 t }))
          (take_all tag_of 16
            (omega (arith, length-tag (length pkt) h.bytes sealed_of capacity (wide ad_of))))

  length-result : length result.bytes ≡ 52 + length pkt + 16
  length-result =
      length-overwrite text_in.bytes 4 tag_of ∙ length-overwrite h.bytes 52 sealed_of ∙ capacity

  cut-step : sub (record h { bytes = result.bytes }) 0 (52 + length pkt) ≡ some result
  unfolding sub
  cut-step =
      rw
        (
          le→leb 0 (52 + length pkt) (omega arith),
          le→leb (52 + length pkt) (length result.bytes) (omega (arith, length-result)),
        )
        (ap (λ n. some (record { bytes = result.bytes; len = n })) (omega arith))

  encrypt-step :
      writes (transform_writes s nonce (length pkt)) (of_list (replicate (52 + length pkt + 16) 0))
        ≡ some h
      → encrypt s nonce pkt ≡ some result
  unfolding encrypt Transform.associated_data
  encrypt-step ran =
      rw (ran, read_whole h 20 32 (omega arith), seal-step, tag-step, sign-step) cut-step

  kept : (o w : ℕ) → 20 ≤ o → o + w ≤ 52 → take w (drop o result.bytes) ≡ take w (drop o h.bytes)
  kept o w low high = header_kept (length pkt) h.bytes sealed_of capacity (wide ad_of) o w low high

  decrypt-step :
      take s.nonce_size (take 16 (drop 20 h.bytes)) ≡ nonce
      → decrypt s result ≡ some (s.unseal nonce sealed_of ad_of)
  unfolding decrypt Transform.encrypted_data Transform.signature Transform.nonce
      Transform.associated_data from
  decrypt-step nonce_there =
      rw
        (
          le→leb 52 (52 + length pkt) (omega arith),
          read_whole result 4 16 (omega (arith, length-result)),
          read_whole result 20 16 (omega (arith, length-result)),
          read_whole result 20 32 (omega (arith, length-result)),
        )
        (unseal_cong s
          (ap (take s.nonce_size) (kept 20 16 (omega arith) (omega arith)) ∙ nonce_there)
          (ap (λ n. take n (drop 52 result.bytes) ++ take 16 (drop 4 result.bytes))
              {x = 52 + length pkt - 52} (omega arith)
            ∙ text-tag (length pkt) h.bytes sealed_of capacity (wide ad_of))
          (kept 20 32 (omega arith) (omega arith)))

nonce_found :
    (s : Session) (nonce : List ℕ) (n : ℕ)
    → length nonce ≡ s.nonce_size
    → 0 < s.nonce_size
    → s.nonce_size ≤ 16
    → found 20 s.nonce_size none (transform_writes s nonce n) ≡ some nonce
nonce_found s nonce n e some_nonce small =
    let all_of_it : take 16 nonce ≡ nonce = take_all nonce 16 (omega arith) in
    rw all_of_it (ground arith)

-- A session whose cipher opens what it sealed, adding 16 bytes, and whose nonces have 1 to 16
-- bytes, decrypts what it encrypted, for every nonce of the right length.
pub decrypt-encrypt :
    (s : Session) (nonce pkt : List ℕ)
    → length nonce ≡ s.nonce_size
    → 0 < s.nonce_size
    → s.nonce_size ≤ 16
    → ((ad : List ℕ) → length (s.seal nonce pkt ad) ≡ length pkt + 16)
    → ((ad : List ℕ) → s.unseal nonce (s.seal nonce pkt ad) ad ≡ some pkt)
    → (q : Slice) × (encrypt s nonce pkt ≡ some q) × (decrypt s q ≡ some (some pkt))
decrypt-encrypt s nonce pkt e some_nonce small wide opens =
    let blank = of_list (replicate (52 + length pkt + 16) 0) in
    let size : length (replicate (52 + length pkt + 16) 0) ≡ 52 + length pkt + 16 =
      length-replicate (52 + length pkt + 16) 0 in
    let (h, r) =
      writes-Written (transform_writes s nonce (length pkt)) 52 blank
        (transform_Fits s nonce (length pkt)) (omega (arith, size)) (omega (arith, size)) in
    let len = r.same_len ∙ size in
    let capacity = r.capacity ∙ size in
    let there : take s.nonce_size (drop 20 h.bytes) ≡ nonce =
      subst (λ t. Says t (take s.nonce_size (drop 20 h.bytes)))
        (nonce_found s nonce (length pkt) e some_nonce small) (r.leaves 20 s.nonce_size none tt) in
    (
      result s nonce pkt h len capacity wide,
      encrypt-step s nonce pkt h len capacity wide r.ran,
      decrypt-step s nonce pkt h len capacity wide
            (take-take s.nonce_size 16 (drop 20 h.bytes) small ∙ there)
          ∙ ap some (opens _),
    )
