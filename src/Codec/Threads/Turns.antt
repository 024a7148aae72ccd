-- ===== src/Codec/Threads/Turns.antt =====
-- The threads of `cwipc_encoder_impl` (cwipc_codec/src/cwipc_codec.cpp): what one turn of each keeps.
use cwipc.Common.{
  ◌≡◌, ◌∙◌, refl, sym, ap, true, Option, none, some, List, [], ◌∷◌, ◌++◌, map, filter_by, All,
  All-append, arith, Option-cases, Bool-cases, inl, inr,
}
use mathlib.Core.List.{map-append, append_assoc, append-nil}
use mathlib.Core.Path.{subst}
use cwipc.Float32.{Float32, lt_f}
use cwipc.Point.{PclPoint, to_pcl}
use cwipc.World.{World, Env}
use cwipc.Pointcloud.{Pointcloud}
use cwipc.Pointcloud.View.{shallowcopy-Shows}
use cwipc.Pointcloud.Packet.{access-timestamp}
use cwipc.Pointcloud.Virtual
use cwipc.Filters.{has_tile}
use cwipc.Codec.{returns, Codec, Coder, Frame, Encoder}
use cwipc.Codec.Single.{
  feed, filter_and_enqueue, enqueue_encoder, enqueue_tilefilter, encode_pointcloud, encode_pcl,
  with_coder, start_frame, coarsen, points_to_encode, run_single_tilefilter, run_single_encode,
}
use cwipc.Codec.Single.Feed.{
  filter_and_enqueue-Shows, encode_pointcloud-Shows, shallowcopy-cellsize, filter_by-Few,
  encode_pcl-queues,
}
use cwipc.Codec.Threads.{feeds, act, tilefilter_step, encoder_step}
use cwipc.Codec.Threads.Running.{
  Sound, SoundEntry, IsRunning, encoded_times, times, queued_times-append, Keeps,
}

tilefilter_step_lem :
    (env : Env) (codec : Codec) (e : Encoder) (p newpc : Pointcloud)
    (queue : List (Option Pointcloud)) (w : World)
    → e.m_queue_tilefilter ≡ some p ∷ queue
    → e.m_alive ≡ true
    → e.tilefilter_waits ≡ true
    → let e₁ : Encoder = record e { m_queue_tilefilter = queue } in
      (filter_and_enqueue env p e₁ w).0 ≡ (true, enqueue_encoder newpc e₁)
      → (tilefilter_step env codec e w).0
        ≡ enqueue_encoder newpc (record e { m_queue_tilefilter = queue })
unfolding tilefilter_step run_single_tilefilter
tilefilter_step_lem env codec e p newpc queue w h alive waits filtered = ground arith

encoder_step_lem :
    (codec : Codec) (e e' : Encoder) (p : Pointcloud) (queue : List (Option Pointcloud)) (w : World)
    → e.m_queue_encoder ≡ some p ∷ queue
    → e.encoder_waits ≡ true
    → e'.m_alive ≡ true
    → (encode_pointcloud codec p (record e { m_queue_encoder = queue }) w).0 ≡ (true, e')
    → (encoder_step codec e w).0 ≡ e'
unfolding encoder_step run_single_encode
encoder_step_lem codec e e' p queue w h waits alive encoded = ground arith

-- Nothing to take: the thread goes on waiting.
idle :
    (env : Env) (codec : Codec) (e : Encoder) (w : World)
    → (e.m_queue_tilefilter ≡ [] → (tilefilter_step env codec e w).0 ≡ e)
      × (e.m_queue_encoder ≡ [] → (encoder_step codec e w).0 ≡ e)
unfolding tilefilter_step encoder_step run_single_tilefilter run_single_encode
idle env codec e w = (λ h. ground arith, λ h. ground arith)

unchanged : (e e' : Encoder) → e' ≡ e → IsRunning e → Keeps e e' []
unchanged e e' h r = rw h (r, sym (append-nil (times e)))

pub feeds-Keeps :
    (env : Env) (codec : Codec) (p : Pointcloud) (e : Encoder) (w : World)
    → Sound p
    → IsRunning e
    → Keeps e (act env codec (feeds p) e w).0 (Virtual.timestamp p ∷ [])
unfolding act feed
feeds-Keeps env codec p e w (ps, few, s, h) r =
    let ((p', copy), w₁) = Virtual.shallowcopy env p w in
    let (left, shows, same_t) = shallowcopy-Shows ps few env p w s in
    let same_c = shallowcopy-cellsize env p w h in
    let copied : Sound copy = (ps, few, shows, rw same_c h) in
    let step : (act env codec (feeds p) e w).0 ≡ enqueue_tilefilter copy e =
      ground (arith, r.alive, r.threads) in
    rw step (
      record {
        alive = r.alive;
        threads = r.threads;
        tilefilter = r.tilefilter;
        encoder = r.encoder;
        tilefilter_queue =
            All-append SoundEntry e.m_queue_tilefilter (some copy ∷ []) r.tilefilter_queue
              (copied, tt);
        encoder_queue = r.encoder_queue;
      },
      simp (queued_times-append, same_t, append_assoc),
    )

pub tilefilter_turn-Keeps :
    (env : Env) (codec : Codec) (e : Encoder) (queue : List (Option Pointcloud)) (w : World)
    → e.m_queue_tilefilter ≡ queue
    → All SoundEntry queue
    → IsRunning e
    → Keeps e (tilefilter_step env codec e w).0 []
tilefilter_turn-Keeps env codec e [] w h sound r = unchanged e _ ((idle env codec e w).0 h) r
tilefilter_turn-Keeps env codec e (none ∷ queue) w h sound r = absurd sound.0
tilefilter_turn-Keeps env codec e (some p ∷ queue) w h ((ps, few, s, c), sound) r =
    let e₁ : Encoder = record e { m_queue_tilefilter = queue } in
    let (newpc, filtered, shows, same_t, same_c) = filter_and_enqueue-Shows env p ps e₁ w few s c in
    let qs = filter_by (λ q. has_tile e.m_params.tilenumber (to_pcl q)) ps in
    let fewer = filter_by-Few (λ q. has_tile e.m_params.tilenumber (to_pcl q)) ps in
    let made : Sound newpc = (qs, omega (arith, fewer), shows, rw same_c c) in
    rw (tilefilter_step_lem env codec e p newpc queue w h r.alive r.tilefilter filtered) (
      record {
        alive = r.alive;
        threads = r.threads;
        tilefilter = r.tilefilter;
        encoder = r.encoder;
        tilefilter_queue = sound;
        encoder_queue =
            All-append SoundEntry e.m_queue_encoder (some newpc ∷ []) r.encoder_queue (made, tt);
      },
      rw h (simp (queued_times-append, same_t, append_assoc, append-nil)),
    )

coarsen-encoded : (c : Float32) (coder : Coder) → (coarsen c coder).encoded ≡ coder.encoded
coarsen-encoded c coder = elim (Bool-cases (lt_f coder.octree_resolution c)) [
  | inl h ↦ rw h refl
  | inr h ↦ rw h refl
]

with_coder-encoded :
    (codec : Codec) (e : Encoder)
    → map (λ f. f.timestamp) (with_coder codec e).0.encoded ≡ encoded_times e.m_encoder
unfolding with_coder
with_coder-encoded codec e = elim (Option-cases e.m_encoder) [
  | inl n ↦ rw n refl
  | inr (coder, n) ↦ rw n refl
]

encode_pcl-times :
    (codec : Codec) (made : Pointcloud) (pcl_pc : List PclPoint) (e : Encoder)
    → let (coder, e₁) = with_coder codec e in
      encoded_times (encode_pcl codec made pcl_pc coder (start_frame e₁)).m_encoder
      ≡ encoded_times e.m_encoder ++ Virtual.timestamp made ∷ []
unfolding encode_pcl
encode_pcl-times codec made pcl_pc e =
    let coder = (with_coder codec e).0 in
    let c = Virtual.cellsize made in
    let frame : Frame = record {
      points = points_to_encode pcl_pc;
      timestamp = Virtual.timestamp made;
    } in
    ap (λ fs. map (λ (f : Frame). f.timestamp) (fs ++ frame ∷ [])) (coarsen-encoded c coder)
    ∙ map-append (λ (f : Frame). f.timestamp) coder.encoded (frame ∷ [])
    ∙ ap (◌++ (Virtual.timestamp made ∷ [])) (with_coder-encoded codec e)

-- The rest of the encoder is as it was.
encode_pcl-flags :
    (codec : Codec) (made : Pointcloud) (pcl_pc : List PclPoint) (e : Encoder)
    → let (coder, e₁) = with_coder codec e in
      let e' = encode_pcl codec made pcl_pc coder (start_frame e₁) in
      (e'.m_alive ≡ e.m_alive)
      × (e'.m_use_threads ≡ e.m_use_threads)
      × (e'.tilefilter_waits ≡ e.tilefilter_waits)
      × (e'.encoder_waits ≡ e.encoder_waits)
unfolding encode_pcl with_coder
encode_pcl-flags codec made pcl_pc e = ground arith

pub encoder_turn-Keeps :
    (env : Env) (codec : Codec) (e : Encoder) (queue : List (Option Pointcloud)) (w : World)
    → e.m_queue_encoder ≡ queue
    → All SoundEntry queue
    → IsRunning e
    → Keeps e (encoder_step codec e w).0 []
encoder_turn-Keeps env codec e [] w h sound r = unchanged e _ ((idle env codec e w).1 h) r
encoder_turn-Keeps env codec e (none ∷ queue) w h sound r = absurd sound.0
encoder_turn-Keeps env codec e (some p ∷ queue) w h ((ps, few, s, c), sound) r =
    let e₀ : Encoder = record e { m_queue_encoder = queue } in
    let made = (Virtual.access_pcl_pointcloud p w).0.0 in
    let (coder, e₁) = with_coder codec e₀ in
    let e' = encode_pcl codec made (map to_pcl ps) coder (start_frame e₁) in
    let (alive, threads, tilefilter, encoder) = encode_pcl-flags codec made (map to_pcl ps) e₀ in
    let (tq, eq) = encode_pcl-queues codec made (map to_pcl ps) e₀ in
    let more = encode_pcl-times codec made (map to_pcl ps) e₀ in
    rw
      (encoder_step_lem codec e e' p queue w h r.encoder (alive ∙ r.alive)
        (encode_pointcloud-Shows codec p ps e₀ w few s))
      (
        record {
          alive = alive ∙ r.alive;
          threads = threads ∙ r.threads;
          tilefilter = tilefilter ∙ r.tilefilter;
          encoder = encoder ∙ r.encoder;
          tilefilter_queue = subst (All SoundEntry) (sym tq) r.tilefilter_queue;
          encoder_queue = subst (All SoundEntry) (sym eq) sound;
        },
        rw (more, tq, eq, h, (access-timestamp p w).0) (simp (append_assoc, append-nil)),
      )

-- With threads, `feed` returns.
pub feed-returns :
    (env : Env) (codec : Codec) (p : Pointcloud) (e : Encoder) (w : World)
    → IsRunning e
    → (feed env codec e p w).0.1 ≡ returns (act env codec (feeds p) e w).0
unfolding act feed
feed-returns env codec p e w r = ground (arith, r.alive, r.threads)
