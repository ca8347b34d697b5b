-- ===== src/Conn/Negotiate/Laws.antt =====
-- server/server.go: the dialect that the server answers, and the negotiations that end in a panic.
use go_smb.Common.{
  ℕ, ◌+◌, ◌*◌, ◌%◌, ◌^◌, ◌≤◌, ◌<◌, ◌≡◌, ◌⊎◌, refl, sym, subst, inl, inr, Bool, true, false, ◌&&◌,
  none, some, List, [], ◌∷◌, length, ◌==◌, ◌!=◌, bit_and, ◌∙◌, ltb, leb, if◌then◌else◌, arith,
  Bool-cases, ◌||◌,
}
use go_smb.Bytes.{Slice, get_le, sub}
use go_smb.Packet.{is_smb1}
use go_smb.Receive.{smb2_negotiate}
use go_smb.Conn.Negotiate.{
  choose_dialect, best_dialect, smb2_unknown, smb202, smb210, smb300, smb302, smb311, Params,
  Config, negotiate, negotiate_request, accept, done, is_invalid_negotiate, make_response, dialects,
  server_capabilities,
}

-- A dialect that the loop looks at.
abbrev pub in_range : ℕ → Bool
in_range d = ltb smb2_unknown d && leb d smb311

abbrev pub offers : ℕ → List ℕ → Bool
offers d [] = false
offers d (e ∷ es) = if e == d then true else offers d es

-- What the loop makes of a dialect `best` and a list: no less than `best` and than what it looks at, and one of these.
unfoldable IsBest : ℕ → List ℕ → ℕ → Type 0
IsBest best ds b =
    (best ≤ b)
    × ((d : ℕ) → offers d ds ≡ true → in_range d ≡ true → d ≤ b)
    × ((b ≡ best) ⊎ ((in_range b ≡ true) × (offers b ds ≡ true)))

IsBest-taken :
    (best d b : ℕ) (ds : List ℕ)
    → smb2_unknown ≤ best
    → (ltb best d && leb d smb311) ≡ true
    → IsBest d ds b
    → IsBest best (d ∷ ds) b
unfolding IsBest
IsBest-taken best d b ds low taken (up, most, from) = (
  ground arith,
  λ e offered range. elim (Bool-cases (d == e)) [
    | inl same ↦ ground arith
    | inr other ↦ most e (rw other at offered) range
  ],
  elim from [
    | inl e ↦ inr (ground arith, ground arith)
    | inr (range, offered) ↦ inr (range, ground arith)
  ],
)

IsBest-left :
    (best d b : ℕ) (ds : List ℕ)
    → (ltb best d && leb d smb311) ≡ false
    → IsBest best ds b
    → IsBest best (d ∷ ds) b
unfolding IsBest
IsBest-left best d b ds left (up, most, from) = (
  up,
  λ e offered range. elim (Bool-cases (d == e)) [
    | inl same ↦ ground arith
    | inr other ↦ most e (rw other at offered) range
  ],
  elim from [ inl e ↦ inl e | inr (range, offered) ↦ inr (range, ground arith) ],
)

IsBest-nil : (best : ℕ) → IsBest best [] best
unfolding IsBest
IsBest-nil best = (omega arith, λ d h. cc, inl refl)

best_dialect_lem :
    (best : ℕ) (ds : List ℕ) → smb2_unknown ≤ best → IsBest best ds (best_dialect best ds)
best_dialect_lem best [] low = IsBest-nil best
best_dialect_lem best (d ∷ ds) low = elim (Bool-cases (ltb best d && leb d smb311)) [
  | inl e ↦
      let rest = best_dialect_lem d ds (ground arith) in
      let cons = IsBest-taken best d (best_dialect d ds) ds low e rest in
      subst (IsBest best (d ∷ ds)) (sym (rw (best_dialect, e) refl)) cons
  | inr e ↦
      let cons = IsBest-left best d (best_dialect best ds) ds e (best_dialect_lem best ds low) in
      subst (IsBest best (d ∷ ds)) (sym (rw (best_dialect, e) refl)) cons
]

-- The dialect answered is the greatest that the client offers above 0x2ff and up to 0x311, or 0x210 where it offers none of these.
pub choose_dialect_lem :
    (ds : List ℕ)
    → ((choose_dialect ds ≡ smb210) × ((d : ℕ) → offers d ds ≡ true → in_range d ≡ false))
      ⊎ ((in_range (choose_dialect ds) ≡ true)
          × (offers (choose_dialect ds) ds ≡ true)
          × ((d : ℕ) → offers d ds ≡ true → in_range d ≡ true → d ≤ choose_dialect ds))
unfolding choose_dialect IsBest
choose_dialect_lem ds =
    let (low, most, from) = best_dialect_lem smb2_unknown ds (omega arith) in
    elim (Bool-cases (best_dialect smb2_unknown ds == smb2_unknown)) [
      | inl e ↦ inl (
        rw e refl,
        λ d offered. elim (Bool-cases (in_range d)) [
          | inl range ↦ let below = most d offered range in ground arith
          | inr out ↦ out
        ],
      )
      | inr e ↦ elim from [
        | inl same ↦ ground arith
        | inr (range, offered) ↦ inr (rw e range, rw e offered, rw e most)
      ]
    ]

abbrev pub supported : ℕ → Bool
supported d = d == smb202 || (d == smb210 || (d == smb300 || (d == smb302 || d == smb311)))

make_response-unsupported :
    (cfg : Config) (d : ℕ) (c : Params)
    → smb2_unknown < d
    → supported d ≡ false
    → make_response cfg d c ≡ none
unfolding make_response
make_response-unsupported cfg d c low h = ground arith

module _ (cfg : Config) (pkt r : Slice) (c : Params) (newer : is_smb1 pkt ≡ some false)
    (taken : accept smb2_negotiate pkt ≡ some (done r))
    (sound : is_invalid_negotiate r ≡ some false) where
  negotiate-accepted : negotiate cfg pkt c ≡ negotiate_request cfg pkt r c
  unfolding negotiate
  negotiate-accepted = rw (negotiate, newer, taken, sound) refl

  -- An accepted negotiate request that passes its check, whose greatest dialect in range is none that
  -- the server knows, is a panic: the response that could not be made is written to.
  pub negotiate-unsupported :
      (ds : List ℕ) (mode wanted : ℕ)
      → dialects r ≡ some ds
      → get_le 2 r 4 ≡ some mode
      → get_le 4 r 8 ≡ some wanted
      → supported (choose_dialect ds) ≡ false
      → negotiate cfg pkt c ≡ none
  unfolding negotiate_request
  negotiate-unsupported ds mode wanted offered at_mode at_caps unknown =
      let low : smb2_unknown < choose_dialect ds = elim (choose_dialect_lem ds) [
        | inl (e, out) ↦ absurd (ground arith)
        | inr (range, offered_too, most) ↦ ground arith
      ] in
      let other : (choose_dialect ds != smb311) ≡ true = ground arith in
      let c1 : Params = record c {
        require_signing = cfg.require_signing || bit_and mode 2 != 0;
        capabilities = bit_and server_capabilities wanted;
        dialect = choose_dialect ds;
        sequence_window = 1;
      } in
      negotiate-accepted
      ∙ rw
          (
            negotiate_request,
            offered,
            at_mode,
            at_caps,
            other,
            make_response-unsupported cfg (choose_dialect ds) c1 low unknown,
          )
          refl

  -- An accepted negotiate request that passes its check and counts more dialects than its buffer has room for is a panic,
  -- where the length that the count asks for, 36 + 2 * count, is below 2 ^ 16 and so does not wrap.
  pub negotiate-dialects_missing :
      (count : ℕ)
      → get_le 2 r 2 ≡ some count
      → 36 + 2 * count < 2 ^ 16
      → length r.bytes < 36 + 2 * count
      → negotiate cfg pkt c ≡ none
  unfolding negotiate_request dialects sub
  negotiate-dialects_missing count counted small missing =
      let whole : (36 + 2 * count) % 2 ^ 16 ≡ 36 + 2 * count = omega arith in
      let short : leb (36 + 2 * count) (length r.bytes) ≡ false = ground arith in
      let panics : dialects r ≡ none = rw (dialects, counted, sub, whole, short) (ground arith) in
      negotiate-accepted ∙ rw (negotiate_request, panics) refl
