-- ===== src/Codec/Group/Uniform.antt =====
-- The encoders of a group (cwipc_codec/src/cwipc_codec.cpp) after any sequence of `addencoder`.
use cwipc.Common.{
  ℕ, ◌≡◌, ◌∙◌, refl, ap, sym, Bool, true, false, not, ◌&&◌, Option, none, some, List, [], ◌∷◌, All,
  All-append, length, ltb, arith, Bool-cases, inl, inr,
}
use mathlib.Core.Path.{subst}
use cwipc.Float32.{Float32, zero_f, le_f, eq_f}
use cwipc.World.{World, M, pure, ◌>>=◌, set_errorbuf}
use cwipc.Pointcloud.Create.{api_version}
use cwipc.World.{done, undefined}
use cwipc.Codec.{EncoderParams, Codec, Encoder}
use cwipc.Codec.Threads.{enable_threads}
use cwipc.Codec.Create.{AnyEncoder, single, parallel, new_encoder}
use cwipc.Codec.Group.{EncoderGroup, addencoder, added, push_encoder, new_group}
use cwipc.Codec.Group.Members.{
  IsNew, Threaded, NonNegative, SameVoxelsize, IsUsable, retarget, added-none, added-Threaded,
  new_encoder-IsNew, enable_threads-m_params,
}

kept :
    (codec : Codec) (e : Encoder) (v : Float32)
    → eq_f e.m_params.voxelsize v ≡ true
    → eq_f (enable_threads codec e).m_params.voxelsize v ≡ true
kept codec e v h =
    ap (λ (p : EncoderParams). eq_f p.voxelsize v) (enable_threads-m_params codec e) ∙ h

push_encoder-voxelsize :
    (codec : Codec) (es : List Encoder) (e : Encoder) (v : Float32)
    → All (λ e. eq_f e.m_params.voxelsize v ≡ true) es
    → eq_f e.m_params.voxelsize v ≡ true
    → All (λ e. eq_f e.m_params.voxelsize v ≡ true) (push_encoder codec es e)
push_encoder-voxelsize codec [] e v all h = (h, tt)
push_encoder-voxelsize codec (a ∷ []) e v all h = (kept codec a v all.0, (kept codec e v h, tt))
push_encoder-voxelsize codec (a ∷ b ∷ es) e v all h =
    let many : ltb 0 (length (a ∷ b ∷ es)) ≡ true = ground arith in
    rw many (
      all.0,
      (
        all.1.0,
        All-append (λ e. eq_f e.m_params.voxelsize v ≡ true) es (enable_threads codec e ∷ [])
            all.1.1 (kept codec e v h, tt),
      ),
    )

eq_f_refl : (v : Float32) → le_f zero_f v ≡ true → eq_f v v ≡ true
eq_f_refl v h = ground arith

added-SameVoxelsize :
    (codec : Codec) (g : EncoderGroup) (err : Option ℕ) (params : EncoderParams)
    (rv : Option AnyEncoder) (w : World)
    → SameVoxelsize g
    → eq_f params.voxelsize g.m_voxelsize ≡ true
    → IsNew params rv
    → let g' = (added codec g err rv w).0.0 in SameVoxelsize g' × (g'.m_voxelsize ≡ g.m_voxelsize)
unfolding added
added-SameVoxelsize codec g err params none w s h n =
    subst (λ g'. SameVoxelsize g' × (g'.m_voxelsize ≡ g.m_voxelsize))
      (sym (added-none codec g err w)) (s, refl)
added-SameVoxelsize codec g err params (some (parallel m)) w s h n = (s, refl)
added-SameVoxelsize codec g err params (some (single e)) w s h n = (
  push_encoder-voxelsize codec g.m_encoders e g.m_voxelsize s
      (ap (λ (p : EncoderParams). eq_f p.voxelsize g.m_voxelsize) n.0 ∙ h),
  refl,
)

-- What every sequence keeps.
abbrev pub IsUniform : EncoderGroup → Type 0
IsUniform g = SameVoxelsize g × Threaded g.m_encoders × IsUsable g

not_second : (a b : Bool) → a ≡ true → (a && not b) ≡ false → b ≡ true
not_second a true h test = refl
not_second true false h test = sym test
not_second false false h test = h

-- The voxel size of the group is replaced by that of the parameters.
set_voxelsize-SameVoxelsize :
    (g : EncoderGroup) (v : Float32)
    → SameVoxelsize g
    → IsUsable g
    → (le_f zero_f g.m_voxelsize && not (eq_f g.m_voxelsize v)) ≡ false
    → SameVoxelsize (record g { m_voxelsize = v })
set_voxelsize-SameVoxelsize g v s (inl h) test =
    subst (All (λ e. eq_f e.m_params.voxelsize v ≡ true)) (sym h) tt
set_voxelsize-SameVoxelsize g v s (inr h) test =
    retarget g.m_encoders g.m_voxelsize v
      (not_second (le_f zero_f g.m_voxelsize) (eq_f g.m_voxelsize v) h test) s

addencoder-IsUniform :
    (codec : Codec) (g : EncoderGroup) (version : ℕ) (params : EncoderParams) (err : Option ℕ)
    (w : World)
    → NonNegative params.voxelsize
    → IsUniform g
    → IsUniform (addencoder codec g version params err w).0.0
unfolding addencoder
addencoder-IsUniform codec g version params err w nonneg (s, t, u) =
    elim (Bool-cases (le_f zero_f g.m_voxelsize && not (eq_f g.m_voxelsize params.voxelsize))) [
      | inl h ↦ rw h (s, t, u)
      | inr h ↦
          let g₁ : EncoderGroup = record g { m_voxelsize = params.voxelsize } in
          let (rv, w₁) =
            new_encoder codec version (some params) err api_version (set_errorbuf err w).1 in
          let fresh =
            new_encoder-IsNew codec version api_version params err (set_errorbuf err w).1 in
          let s₁ = set_voxelsize-SameVoxelsize g params.voxelsize s u h in
          let (same, size) =
            added-SameVoxelsize codec g₁ err params rv w₁ s₁ (eq_f_refl params.voxelsize nonneg)
              fresh in
          rw h (
            same,
            added-Threaded codec g₁ err params rv w₁ t fresh,
            inr (ap (le_f zero_f) size ∙ nonneg),
          )
    ]

-- A sequence of calls, up to the first that is undefined.
abbrev pub Addition : Type 0
Addition = ℕ × EncoderParams × Option ℕ

unfoldable pub add_all : Codec → List Addition → EncoderGroup → M EncoderGroup
add_all codec [] g = pure g
add_all codec ((version, params, err) ∷ calls) g = do
  rv ← addencoder codec g version params err
  elim rv.1 [ undefined ↦ pure rv.0 | done index ↦ add_all codec calls rv.0 ]

add_all_lem :
    (codec : Codec) (calls : List Addition) (g : EncoderGroup) (w : World)
    → All (λ call. NonNegative call.1.voxelsize) calls
    → IsUniform g
    → IsUniform (add_all codec calls g w).0
unfolding add_all
add_all_lem codec [] g w nonneg u = u
add_all_lem codec ((version, params, err) ∷ calls) g w nonneg u =
    let ((g', rv), w') = addencoder codec g version params err w in
    let step = addencoder-IsUniform codec g version params err w nonneg.0 u in
    elim rv
      as (λ rv.
        IsUniform
          ((elim rv as (λ rv. M EncoderGroup) [
            | undefined ↦ pure g'
            | done index ↦ add_all codec calls g'
          ])
            w').0) [ undefined ↦ step | done index ↦ add_all_lem codec calls g' w' nonneg.1 step ]

-- After any sequence of calls of addencoder on a new group, up to the first that is undefined,
-- with voxel sizes that are not negative, every encoder has the voxel size of the group; a single
-- encoder has no threads, and two or more all have them.
pub add_all-IsUniform :
    (codec : Codec) (calls : List Addition) (w : World)
    → All (λ call. NonNegative call.1.voxelsize) calls
    → let g = (add_all codec calls new_group w).0 in SameVoxelsize g × Threaded g.m_encoders
add_all-IsUniform codec calls w nonneg =
    let u = add_all_lem codec calls new_group w nonneg (tt, tt, inl refl) in (u.0, u.1)
