-- ===== src/Files/SetInfo/Tables.antt =====
-- server/file_tree.go, `setInfo`: it reaches the server's tables through the open of its handle alone.
use go_smb.Common.{
  ℕ, ◌≡◌, refl, subst, Option, none, some, ◌==◌, ◌⊎◌, inl, inr, Bool, ◌||◌, List, take, drop,
  Option-cases,
}
use go_smb.Bytes.{Slice, index, read, decode_le}
use go_smb.Packet.{body}
use go_smb.Opens.Table.{Open, Server, get_open}
use go_smb.Vfs.{FileSystem}
use go_smb.Files.{
  FileId, file_id_at, is_invalid_file_id, target, target_id, accepted, accept, accept_or_nil,
  or_nil, State, found_or_refuse, CompoundContext, handle_id, status_invalid_handle,
}
use go_smb.Files.Calm.{
  Calm, Calm-next, Calm-then, Calm-if, Calm-lift_is, Calm-refuse_if, Calm-lift, Calm-refuse,
}
use go_smb.Files.Still.{Leaves, Leaves-next, Leaves-then, Leaves-weaken}
use go_smb.Files.Security.{smb2_set_info}
use go_smb.Files.SetInfo.{Setting, set_info}
use go_smb.Files.SetInfo.Laws.{Sets, sets_if, sets_then, set_sec_sets, set_class_sets}

-- The handle that a packet is about: that of the context it stands in, where this has one, or else the
-- last 8 of the 16 bytes at offset 16 of the packet's own data.
pub data IsHandleOf (pkt : Slice) : Option CompoundContext → ℕ → Type 0 where
  alone :
      (r : Slice) (bs : List ℕ)
      → body pkt ≡ some r
      → read r 16 16 ≡ some bs
      → IsHandleOf pkt none (decode_le (drop 8 bs))
  first_file :
      (c : CompoundContext) (r : Slice) (bs : List ℕ)
      → c.file_id ≡ none
      → body pkt ≡ some r
      → read r 16 16 ≡ some bs
      → IsHandleOf pkt (some c) (decode_le (drop 8 bs))
  of_context :
      (c : CompoundContext) (f : FileId)
      → c.file_id ≡ some f
      → IsHandleOf pkt (some c) (decode_le f.volatile)

-- The tables after a request that found `v`: those, or what the request may do on the one open that
-- the table has under the handle of the request.
pub data IsSetOf (ctx : Option CompoundContext) (pkt : Slice) (v : Server) : Server → Type 0 where
  untouched : IsSetOf ctx pkt v v
  through :
      (h : ℕ) (o : Open) (w : Server)
      → IsHandleOf pkt ctx h
      → get_open h v ≡ some o
      → Sets v h o w
      → IsSetOf ctx pkt v w

-- The data of an accepted packet, or the nil slice.
abbrev IsData : Slice → Slice → Type 0
IsData pkt r = (body pkt ≡ some r) ⊎ (r ≡ or_nil none)

-- The nil slice has no file id.
file_id_at-read :
    (r : Slice) (own : FileId)
    → file_id_at 16 r ≡ some own
    → (bs : List ℕ) × (read r 16 16 ≡ some bs)
      × (own ≡ record { persistent = take 8 bs; volatile = drop 8 bs })
unfolding file_id_at
file_id_at-read r own e = elim (Option-cases (read r 16 16)) [
  | inl missing ↦ let over : file_id_at 16 r ≡ none = rw (file_id_at, missing) refl in cc (over, e)
  | inr (bs, there) ↦
      let it : file_id_at 16 r ≡ some (record { persistent = take 8 bs; volatile = drop 8 bs }) =
        rw (file_id_at, there) refl in
      (bs, there, cc (it, e))
]

nil-read : (bs : List ℕ) → read (or_nil none) 16 16 ≡ some bs → ⊥
unfolding read
nil-read bs e = cc e

own-IsHandleOf :
    (pkt r : Slice) (own : FileId) (ctx : Option CompoundContext)
    → IsData pkt r
    → file_id_at 16 r ≡ some own
    → IsHandleOf pkt ctx (handle_id (target ctx own))
own-IsHandleOf pkt r own ctx (inr none_such) e =
    let (bs, there, _) = file_id_at-read r own e in
    absurd (nil-read bs (subst (λ q. read q 16 16 ≡ some bs) none_such there))
own-IsHandleOf pkt r own none (inl data_of) e =
    let (bs, there, it) = file_id_at-read r own e in rw it (alone r bs data_of there)
own-IsHandleOf pkt r own (some c) (inl data_of) e =
    let (bs, there, it) = file_id_at-read r own e in chosen bs there it c.file_id refl
  where
    chosen :
        (bs : List ℕ)
        → read r 16 16 ≡ some bs
        → own ≡ record { persistent = take 8 bs; volatile = drop 8 bs }
        → (x : Option FileId) → c.file_id ≡ x
        → IsHandleOf pkt (some c) (handle_id (elim x [ none ↦ own | some f ↦ f ]))
    chosen bs there it none no_file = rw it (first_file c r bs no_file data_of there)
    chosen bs there it (some f) file = of_context c f file

-- A packet that is accepted gives its data.
abbrev IsAccepted : Slice → Option Slice → Type 0
IsAccepted pkt none = Unit
IsAccepted pkt (some r) = body pkt ≡ some r

module _ {D : Type 0} {v : Server} where
  accepted-Calm :
      (request succeeded : Bool) (pkt : Slice) (s : State D)
      → s.server ≡ v
      → Calm v (IsAccepted pkt) (accepted request succeeded pkt s)
  accepted-Calm request succeeded pkt s e =
      Calm-if (IsAccepted pkt) (request || succeeded) _ _ s e
        (Calm-next (λ r. body pkt ≡ some r) (IsAccepted pkt) _ _ (Calm-lift_is (body pkt) s e)
          λ r s1 e1 same. (e1, same))
        (e, tt)

  accept-Calm :
      (c : ℕ) (pkt : Slice) (s : State D) → s.server ≡ v → Calm v (IsAccepted pkt) (accept c pkt s)
  accept-Calm c pkt s e = search (Calm-then, Calm-lift, Calm-if, accepted-Calm) depth 20

  IsData-Calm :
      (c : ℕ) (pkt : Slice) (s : State D)
      → s.server ≡ v
      → Calm v (IsData pkt) (accept_or_nil c pkt s)
  IsData-Calm c pkt s e =
      Calm-next (IsAccepted pkt) (IsData pkt) _ _ (accept-Calm c pkt s e) data_of
    where
      data_of :
          (r : Option Slice) (s1 : State D)
          → s1.server ≡ v
          → IsAccepted pkt r
          → (s1.server ≡ v) × IsData pkt (or_nil r)
      data_of none s1 e1 k = (e1, inr refl)
      data_of (some r) s1 e1 k = (e1, inl k)

  target-Calm :
      (ctx : Option CompoundContext) (r pkt : Slice) (s : State D)
      → s.server ≡ v
      → IsData pkt r
      → Calm v (λ id. IsHandleOf pkt ctx (handle_id id)) (target_id 16 ctx r pkt s)
  target-Calm ctx r pkt s e data_of =
      Calm-next (λ own. file_id_at 16 r ≡ some own) (λ id. IsHandleOf pkt ctx (handle_id id)) _ _
        (Calm-lift_is (file_id_at 16 r) s e)
        λ own s1 e1 is_own.
          Calm-then (λ id. IsHandleOf pkt ctx (handle_id id)) _ _
            (Calm-refuse_if (is_invalid_file_id (target ctx own)) pkt status_invalid_handle s1 e1)
            λ _ s2 e2. (e2, own-IsHandleOf pkt r own ctx data_of is_own)

  -- A step that goes on has the open.
  found-Calm :
      (pkt : Slice) (x : Option Open) (s : State D)
      → s.server ≡ v
      → Calm v (λ o. x ≡ some o) (found_or_refuse pkt x s)
  found-Calm pkt none s e = Calm-refuse (λ o. none ≡ some o) pkt status_invalid_handle s e
  found-Calm pkt (some o) s e = (e, refl)

  set_info-Leaves :
      (fs : FileSystem D) (setting : Setting) (ctx : Option CompoundContext) (pkt : Slice)
      (s : State D)
      → s.server ≡ v
      → Leaves (IsSetOf ctx pkt v) (set_info fs setting ctx pkt s)
  unfolding set_info
  set_info-Leaves fs setting ctx pkt s e =
      let Q = IsSetOf ctx pkt v in
      Leaves-next Q v (IsData pkt) _ _ (IsData-Calm smb2_set_info pkt s e) untouched
        λ r s1 e1 data_of.
          Leaves-next Q v (λ id. IsHandleOf pkt ctx (handle_id id)) _ _
            (target-Calm ctx r pkt s1 e1 data_of) untouched
            λ id s2 e2 handle.
              Leaves-next Q v (λ o. get_open (handle_id id) s2.server ≡ some o) _ _
                (found-Calm pkt (get_open (handle_id id) s2.server) s2 e2) untouched
                λ o s3 e3 is_open.
                  let h = handle_id id in
                  let through_it : (w : Server) → Sets v h o w → IsSetOf ctx pkt v w =
                    λ w q. through h o w handle (subst (λ u. get_open h u ≡ some o) e2 is_open) q in
                  Leaves-then Q v _ _ (Calm-lift (index r 2) s3 e3) untouched λ info_type s4 e4.
                    Leaves-weaken (Sets v h o) Q _ through_it (
                      sets_if h o (info_type == 3) _ _ s4 e4 (set_sec_sets h o fs setting pkt s4 e4)
                        (sets_then h o _ _ (Calm-lift (index r 3) s4 e4)
                          λ class s5 e5. set_class_sets h o fs setting class pkt s5 e5))

-- Unless it panics, and however it is answered, `setInfo` leaves the server's tables as they were; or it works on the one
-- open that stands under the handle of the request, which is that of the compound's file where it has one and else the
-- one in the 16 bytes at offset 16 of the packet's data: it takes the node of this open back from deletion; or it marks
-- this node for deletion, if the open was granted the right to delete; or it gives this open another name.
pub set_info-IsSetOf :
    {D : Type 0} (fs : FileSystem D) (setting : Setting) (ctx : Option CompoundContext)
    (pkt : Slice) (s : State D)
    → Leaves (IsSetOf ctx pkt s.server) (set_info fs setting ctx pkt s)
set_info-IsSetOf fs setting ctx pkt s = set_info-Leaves fs setting ctx pkt s refl
