-- ===== src/Files/Create/Contexts/Served.antt =====
-- server/file_tree.go: the create contexts leave the server's tables alone, and the open its ids.
use go_smb.Common.{ℕ, zero, suc, ◌≡◌, refl, ◌∙◌, Bool, [], if◌then◌else◌, ◌==◌}
use go_smb.Common.Texts.{Text}
use go_smb.Bytes.{Slice, get_le, from}
use go_smb.Opens.Table.{Open, Server}
use go_smb.Vfs.{FileSystem, Attributes}
use go_smb.Files.{State, lift, pure}
use go_smb.Files.Calm.{Calm, Any, Calm-next, Calm-then, Calm-if, Calm-lift, calm_rules}
use go_smb.Files.Create.Contexts.{
  handle_posix_cc, handle_q_fid, handle_dh2_q, handle_rq_ls, handle_aapl_cc, buffer_slice,
  one_context, context_name, each_context, posix_perms_in,
}

-- The ids and the name of an open.
abbrev pub KeepsIds : Open → Open → Type 0
KeepsIds o o' =
    (o'.file_id ≡ o.file_id)
    × (o'.durable_file_id ≡ o.durable_file_id)
    × (o'.path_name ≡ o.path_name)

abbrev SameIds : {A : Type 0} → Open → A × Open → Type 0
SameIds o x = KeepsIds o x.1

module _ {D : Type 0} (fs : FileSystem D) {v : Server} where
  posix_cc-Calm :
      (a : Attributes) (o : Open) (s : State D)
      → s.server ≡ v
      → Calm v (SameIds o) (handle_posix_cc fs a o s)
  posix_cc-Calm a o s e = search (calm_rules) depth 20

  q_fid-Calm : (o : Open) (s : State D) → s.server ≡ v → Calm v (SameIds o) (handle_q_fid fs o s)
  q_fid-Calm o s e = search (calm_rules) depth 20

  dh2_q-Calm :
      (b : Slice) (o : Open) (s : State D)
      → s.server ≡ v
      → Calm v (SameIds o) (handle_dh2_q fs b o s)
  dh2_q-Calm b o s e = search (calm_rules) depth 20

  rq_ls-Calm :
      (b : Slice) (o : Open) (s : State D)
      → s.server ≡ v
      → Calm v (SameIds o) (handle_rq_ls fs b o s)
  rq_ls-Calm b o s e = search (calm_rules) depth 20

  aapl-Calm :
      (b : Slice) (o : Open) (s : State D)
      → s.server ≡ v
      → Calm v (SameIds o) (handle_aapl_cc fs b o s)
  aapl-Calm b o s e = search (calm_rules) depth 20

  buffer_slice-Calm : (l : Slice) (s : State D) → s.server ≡ v → Calm v Any (buffer_slice fs l s)
  buffer_slice-Calm l s e = search (calm_rules) depth 20

  context_name-Calm : (l : Slice) (s : State D) → s.server ≡ v → Calm v Any (context_name l s)
  context_name-Calm l s e = search (calm_rules) depth 20

  one_context-Calm :
      (posix : Bool) (a : Attributes) (name : Text) (l : Slice) (o : Open) (s : State D)
      → s.server ≡ v
      → Calm v (SameIds o) (one_context fs posix a name l o s)
  one_context-Calm posix a name l o s e =
      search
        (
          calm_rules, posix_cc-Calm, q_fid-Calm, dh2_q-Calm, rq_ls-Calm, aapl-Calm,
          buffer_slice-Calm,
        )
        depth 20

  pub each_context-Calm :
      (fuel : ℕ) (posix : Bool) (a : Attributes) (l : Slice) (o : Open) (s : State D)
      → s.server ≡ v
      → Calm v (SameIds o) (each_context fs fuel posix a l o s)
  each_context-Calm zero posix a l o s e = (e, (refl, refl, refl))
  each_context-Calm (suc fuel) posix a l o s e =
      Calm-if (SameIds o) (l.len == 0) _ _ s e (e, (refl, refl, refl))
        (Calm-then (SameIds o) _ (context_name l s) (context_name-Calm l s e) λ name s1 e1.
          Calm-next (SameIds o) (SameIds o) _ (one_context fs posix a name l o s1)
            (one_context-Calm posix a name l o s1 e1)
            λ (c, o') s2 e2 ids.
              Calm-then (SameIds o) _ (lift (get_le 4 l 0) s2) (Calm-lift (get_le 4 l 0) s2 e2)
                λ step s3 e3.
                  Calm-then (SameIds o) _ (lift (from l step) s3) (Calm-lift (from l step) s3 e3)
                    λ left s4 e4.
                      Calm-next (SameIds o') (SameIds o) _
                        ((if step == 0 then pure ([], o') else each_context fs fuel posix a left o')
                          s4)
                        (Calm-if (SameIds o') (step == 0) _ _ s4 e4 (e4, (refl, refl, refl))
                          (each_context-Calm fuel posix a left o' s4 e4))
                        λ (cs, o'') s5 e5 ids'.
                          (e5, (ids'.0 ∙ ids.0, ids'.1 ∙ ids.1, ids'.2 ∙ ids.2)))

  pub posix_perms_in-Calm :
      (fuel : ℕ) (l : Slice) (s : State D) → s.server ≡ v → Calm v Any (posix_perms_in fs fuel l s)
  posix_perms_in-Calm zero l s e = (e, tt)
  posix_perms_in-Calm (suc fuel) l s e =
      search (calm_rules, posix_perms_in-Calm fuel, context_name-Calm, buffer_slice-Calm) depth 20
