-- ===== src/Bulk/WriteRun/Groups.antt =====
-- bulk/backend.go: what the first loop of `applyWriteRun` collects.
use go_smb.Common.{
  ◌≡◌, refl, sym, subst, ◌∙◌, ap, inl, inr, Bool, true, false, Option, none, some, List, [], ◌∷◌,
  ◌++◌, append_assoc, append-nil, if◌then◌else◌, ◌>>=◌, Bool-cases, Option-cases, >>=-eq-some,
}
use go_smb.Common.Texts.{Text, equal_bytes, equal_bytes_refl, equal_bytes_sym, equal_bytes-eq}
use go_smb.Common.Texts as Texts
use go_smb.Bulk.{Operation}
use go_smb.Bulk.WriteRun.{Paths, resolve, group_writes, Groups, group_of}
use go_smb.Bulk.WriteRun.Commute.{mem, IsDistinct, ops_of}

-- The writes with their paths resolved, in journal order.
unfoldable pub resolve_all : Paths → Text → List Operation → Option (List (Text × Operation))
resolve_all paths root [] = some []
resolve_all paths root (op ∷ ops) = do
  p ← resolve paths root op.path
  rest ← resolve_all paths root ops
  some ((p, op) ∷ rest)

abbrev pub is_known : Text → Groups → Bool
is_known p by_path = elim (Texts.find p by_path) [ none ↦ false | some ops ↦ true ]

-- The order and the groups of the writes so far.
pub record IsGrouped (order : List Text) (by_path : Groups) (ws : List (Text × Operation))
    : Type 0 where
  pub distinct : IsDistinct order
  pub known : (p : Text) → mem p order ≡ is_known p by_path
  pub groups : (p : Text) → group_of p by_path ≡ ops_of p ws

mem-append :
    (q p : Text) (order : List Text)
    → mem q (order ++ (p ∷ [])) ≡ (if mem q order then true else equal_bytes p q)
mem-append q p [] = elim (Bool-cases (equal_bytes p q)) [ inl e ↦ rw e refl | inr e ↦ rw e refl ]
mem-append q p (r ∷ order) = elim (Bool-cases (equal_bytes r q)) [
  | inl e ↦ rw e refl
  | inr e ↦ rw e (mem-append q p order)
]

append-IsDistinct :
    (p : Text) (order : List Text)
    → mem p order ≡ false
    → IsDistinct order
    → IsDistinct (order ++ (p ∷ []))
append-IsDistinct p [] h d = (refl, tt)
append-IsDistinct p (q ∷ order) h (new, d) = elim (Bool-cases (equal_bytes q p)) [
  | inl e ↦ let there : mem p (q ∷ order) ≡ true = rw e refl in absurd (cc (h, there))
  | inr e ↦ (
    mem-append q p order ∙ rw (new, equal_bytes_sym p q) e,
    append-IsDistinct p order (rw e at h) d,
  )
]

ops_of-append :
    (p q : Text) (op : Operation) (ws : List (Text × Operation))
    → ops_of p (ws ++ ((q, op) ∷ []))
      ≡ (if equal_bytes q p then ops_of p ws ++ (op ∷ []) else ops_of p ws)
ops_of-append p q op [] = refl
ops_of-append p q op ((r, op') ∷ ws) = elim (Bool-cases (equal_bytes r p)) [
  | inl e ↦ elim (Bool-cases (equal_bytes q p)) [
    | inl f ↦ rw (e, f, ops_of-append p q op ws, f) refl
    | inr f ↦ rw (e, f, ops_of-append p q op ws, f) refl
  ]
  | inr e ↦ rw e (ops_of-append p q op ws)
]

group_of-insert :
    (q p : Text) (ops : List Operation) (m : Groups)
    → group_of q (Texts.insert p ops m) ≡ (if equal_bytes p q then ops else group_of q m)
group_of-insert q p ops m = elim (Bool-cases (equal_bytes p q)) [
  | inl e ↦ rw (group_of, Texts.find-insert p q ops m, e) refl
  | inr e ↦ rw (group_of, Texts.find-insert p q ops m, e) refl
]

is_known-insert :
    (q p : Text) (ops : List Operation) (m : Groups)
    → is_known q (Texts.insert p ops m) ≡ (if equal_bytes p q then true else is_known q m)
is_known-insert q p ops m = elim (Bool-cases (equal_bytes p q)) [
  | inl e ↦ rw (is_known, Texts.find-insert p q ops m, e) refl
  | inr e ↦ rw (is_known, Texts.find-insert p q ops m, e) refl
]

if-swap : (a b : Bool) → (if a then true else b) ≡ (if b then true else a)
if-swap true true = refl
if-swap true false = refl
if-swap false true = refl
if-swap false false = refl

one_more-IsGrouped :
    (p : Text) (op : Operation) (order : List Text) (m : Groups) (ws : List (Text × Operation))
    → IsGrouped order m ws
    → IsGrouped
        (elim (Texts.find p m) [ none ↦ order ++ (p ∷ []) | some seen ↦ order ])
        (Texts.insert p (group_of p m ++ (op ∷ [])) m)
        (ws ++ ((p, op) ∷ []))
one_more-IsGrouped p op order m ws grouped =
    let groups' : (q : Text)
        → group_of q (Texts.insert p (group_of p m ++ (op ∷ [])) m)
          ≡ ops_of q (ws ++ ((p, op) ∷ [])) =
      λ q. elim (Bool-cases (equal_bytes p q)) [
        | inl e ↦
            rw
              (
                group_of-insert q p (group_of p m ++ (op ∷ [])) m,
                ops_of-append q p op ws,
                e,
                grouped.groups p,
                equal_bytes-eq p q e,
              )
              refl
        | inr e ↦
            rw (group_of-insert q p (group_of p m ++ (op ∷ [])) m, ops_of-append q p op ws, e)
              (grouped.groups q)
      ] in
    let known' : (q : Text)
        → is_known q (Texts.insert p (group_of p m ++ (op ∷ [])) m)
          ≡ (if equal_bytes p q then true else mem q order) =
      λ q. rw (is_known-insert q p (group_of p m ++ (op ∷ [])) m, grouped.known q) refl in
    elim (Option-cases (Texts.find p m)) [
      | inl e ↦ rw e (record {
        distinct =
            append-IsDistinct p order (grouped.known p ∙ rw (is_known, e) refl) grouped.distinct;
        known =
            λ q. mem-append q p order ∙ if-swap (mem q order) (equal_bytes p q) ∙ sym (known' q);
        groups = groups';
      })
      | inr (seen, e) ↦ rw e (record {
        distinct = grouped.distinct;
        known = λ q. elim (Bool-cases (equal_bytes p q)) [
          | inl f ↦
              let there : mem p order ≡ true = grouped.known p ∙ rw (is_known, e) refl in
              subst (λ r. mem r order ≡ true) (equal_bytes-eq p q f) there
              ∙ sym (known' q ∙ rw f refl)
          | inr f ↦ sym (known' q ∙ rw f refl)
        ];
        groups = groups';
      })
    ]

-- If every path resolves, the loop ends with the groups of all the writes.
pub group_writes-IsGrouped :
    (paths : Paths) (root : Text) (ops : List Operation) (order : List Text) (m : Groups)
    (ws new : List (Text × Operation))
    → IsGrouped order m ws
    → resolve_all paths root ops ≡ some new
    → (order' : List Text) × (m' : Groups) × (group_writes paths root ops order m
        ≡ some (order', m'))
      × IsGrouped order' m' (ws ++ new)
unfolding group_writes resolve_all
group_writes-IsGrouped paths root [] order m ws new grouped h =
    let none_new : [] ≡ new = cc in
    (
      order,
      m,
      refl,
      subst (λ l. IsGrouped order m l) (sym (append-nil ws) ∙ ap (λ l. ws ++ l) none_new) grouped,
    )
group_writes-IsGrouped paths root (op ∷ ops) order m ws new grouped h =
    let (p, at_p, h') = >>=-eq-some (resolve paths root op.path) _ h in
    let (rest, at_rest, h'') = >>=-eq-some (resolve_all paths root ops) _ h' in
    let shape : (p, op) ∷ rest ≡ new = cc in
    let (order', m', ran, grouped') =
      group_writes-IsGrouped paths root ops
        (elim (Texts.find p m) [ none ↦ order ++ (p ∷ []) | some seen ↦ order ])
        (Texts.insert p (group_of p m ++ (op ∷ [])) m) (ws ++ ((p, op) ∷ [])) rest
        (one_more-IsGrouped p op order m ws grouped) at_rest in
    (
      order',
      m',
      rw (group_writes, at_p) ran,
      subst (λ l. IsGrouped order' m' l)
          (append_assoc ws ((p, op) ∷ []) rest ∙ ap (λ l. ws ++ l) shape) grouped',
    )
