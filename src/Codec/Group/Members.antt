-- ===== src/Codec/Group/Members.antt =====
-- The encoders of a group (cwipc_codec/src/cwipc_codec.cpp): their voxel sizes and their threads.
use cwipc.Common.{
  ℕ, ◌≡◌, refl, sym, Bool, true, false, not, ◌&&◌, Option, none, some, List, [], ◌∷◌, All, ◌⊎◌,
  All-append, length, ltb, if◌then◌else◌, ◌==◌, arith, Bool-cases, inl, inr,
}
use mathlib.Core.Path.{subst}
use cwipc.Common.Int.{pos, ltb_ℤ}
use cwipc.Float32.{Float32, zero_f, le_f, eq_f}
use cwipc.World.{World, pure, ◌>>◌, set_errorbuf}
use cwipc.Pointcloud.Create.{version_refused}
use cwipc.Filters.{eq_ℤ}
use cwipc.Codec.{EncoderParams, Codec, Encoder}
use cwipc.Codec.Single.{new_encoder_impl}
use cwipc.Codec.Threads.{enable_threads}
use cwipc.Codec.Parallel.{new_multithreaded}
use cwipc.Codec.Create.{
  AnyEncoder, single, parallel, new_encoder, make_encoder, refuse, encoder_param_version,
  encoder_param_version_old,
}
use cwipc.Codec.Group.{EncoderGroup, added, push_encoder}

-- A group of two or more has threads in every encoder; a single encoder has none.
abbrev pub Threaded : List Encoder → Type 0
Threaded [] = Unit
Threaded (e ∷ []) = e.m_use_threads ≡ false
Threaded es = All (λ e. e.m_use_threads ≡ true) es

enable_threads_lem : (codec : Codec) (e : Encoder) → (enable_threads codec e).m_use_threads ≡ true
unfolding enable_threads
enable_threads_lem codec e = ground arith

pub enable_threads-m_params :
    (codec : Codec) (e : Encoder) → (enable_threads codec e).m_params ≡ e.m_params
unfolding enable_threads
enable_threads-m_params codec e = ground arith

push_encoder-Threaded :
    (codec : Codec) (es : List Encoder) (e : Encoder)
    → Threaded es
    → e.m_use_threads ≡ false
    → Threaded (push_encoder codec es e)
push_encoder-Threaded codec [] e t h = h
push_encoder-Threaded codec (a ∷ []) e t h =
    (enable_threads_lem codec a, (enable_threads_lem codec e, tt))
push_encoder-Threaded codec (a ∷ b ∷ es) e t h =
    let many : ltb 0 (length (a ∷ b ∷ es)) ≡ true = ground arith in
    rw many (
      t.0,
      (
        t.1.0,
        All-append (λ e. e.m_use_threads ≡ true) es (enable_threads codec e ∷ []) t.1.1
            (enable_threads_lem codec e, tt),
      ),
    )

-- A new encoder of this class has the parameters and no threads.
abbrev pub IsNew : EncoderParams → Option AnyEncoder → Type 0
IsNew params (some (single e)) = (e.m_params ≡ params) × (e.m_use_threads ≡ false)
IsNew params rv = Unit

-- By the outcome of its three tests.
chosen-IsNew :
    (codec : Codec) (params : EncoderParams) (inter gop many : Bool) (w : World)
    → IsNew params
        ((if inter
            then refuse "inter-frame encoding not supported in this version"
            else if gop
            then refuse "gop_size != 1 not supported in this version"
            else (do
              set_errorbuf none
              pure (
                  some (
                    if many
                    then parallel (new_multithreaded codec params)
                    else single (new_encoder_impl params)))))
          w).0
unfolding refuse
chosen-IsNew codec params true gop many w = tt
chosen-IsNew codec params false true many w = tt
chosen-IsNew codec params false false true w = tt
chosen-IsNew codec params false false false w = (refl, refl)

make_encoder-IsNew :
    (codec : Codec) (version : ℕ) (params : EncoderParams) (w : World)
    → IsNew params (make_encoder codec version params w).0
unfolding make_encoder
make_encoder-IsNew codec version params w =
    chosen-IsNew codec params params.do_inter_frame (not (eq_ℤ params.gop_size 1))
      (version == encoder_param_version && ltb_ℤ (pos 1) params.n_parallel) w

pub new_encoder-IsNew :
    (codec : Codec) (version api : ℕ) (params : EncoderParams) (err : Option ℕ) (w : World)
    → IsNew params (new_encoder codec version (some params) err api w).0
unfolding new_encoder
new_encoder-IsNew codec version api params err w = elim (Bool-cases (version_refused api)) [
  | inl h ↦ rw h tt
  | inr h ↦
      elim (Bool-cases
        (not (version == encoder_param_version) && not (version == encoder_param_version_old))) [
          | inl k ↦ rw (h, k) tt
          | inr k ↦ rw (h, k) (make_encoder-IsNew codec version params (set_errorbuf err w).1)
        ]
]

pub added-none :
    (codec : Codec) (g : EncoderGroup) (err : Option ℕ) (w : World)
    → (added codec g err none w).0.0 ≡ g
unfolding added
added-none codec g err w = ground arith

pub added-Threaded :
    (codec : Codec) (g : EncoderGroup) (err : Option ℕ) (params : EncoderParams)
    (rv : Option AnyEncoder) (w : World)
    → Threaded g.m_encoders
    → IsNew params rv
    → Threaded (added codec g err rv w).0.0.m_encoders
unfolding added
added-Threaded codec g err params none w t n =
    subst (λ g'. Threaded g'.m_encoders) (sym (added-none codec g err w)) t
added-Threaded codec g err params (some (parallel m)) w t n = t
added-Threaded codec g err params (some (single e)) w t n =
    push_encoder-Threaded codec g.m_encoders e t n.1

eq_f_trans : (a b c : Float32) → eq_f a b ≡ true → eq_f b c ≡ true → eq_f a c ≡ true
eq_f_trans a b c h h' = ground arith

abbrev pub NonNegative : Float32 → Type 0
NonNegative v = le_f zero_f v ≡ true

-- Every encoder has the voxel size of the group.
abbrev pub SameVoxelsize : EncoderGroup → Type 0
SameVoxelsize g = All (λ e. eq_f e.m_params.voxelsize g.m_voxelsize ≡ true) g.m_encoders

-- A new group, or one whose voxel size is set.
abbrev pub IsUsable : EncoderGroup → Type 0
IsUsable g = (g.m_encoders ≡ []) ⊎ (NonNegative g.m_voxelsize)

pub retarget :
    (es : List Encoder) (v v' : Float32)
    → eq_f v v' ≡ true
    → All (λ e. eq_f e.m_params.voxelsize v ≡ true) es
    → All (λ e. eq_f e.m_params.voxelsize v' ≡ true) es
retarget [] v v' h all = tt
retarget (e ∷ es) v v' h all =
    (eq_f_trans e.m_params.voxelsize v v' all.0 h, retarget es v v' h all.1)
