-- ===== src/Codec/Single/Feed.antt =====
-- `cwipc_encoder_impl::feed` without threads (cwipc_codec/src/cwipc_codec.cpp): what comes out of it.
use cwipc.Common.{
  ℕ, ◌≡◌, ◌∙◌, refl, Bool, length, ◌≤◌, Bool-cases, inl, inr, true, false, some, List, [], ◌∷◌,
  ◌++◌, map, filter_by, arith, ap,
}
use mathlib.Core.Path.{subst}
use cwipc.Common.Int.{ℤ}
use cwipc.Float32.{Float32, lt_f, zero_f}
use cwipc.Point.{Point, PclPoint, to_pcl}
use cwipc.World.{World, Env}
use cwipc.Pointcloud.{Pointcloud, impl, uncompressed}
use cwipc.Pointcloud.View.{Shows, Few, access-Shows, shallowcopy-Shows}
use cwipc.Pointcloud.Packet.{access-timestamp}
use cwipc.Pointcloud.Virtual
use cwipc.Filters.{tilefilter, with_pcl, has_tile, eq_ℤ}
use cwipc.Filters.Pointwise.{tilefilter-Yields}
use cwipc.Codec.{Codec, Coder, Frame, Encoder, returns}
use cwipc.Codec.Single.{
  feed, feed_unthreaded, filter_and_enqueue, enqueue_encoder, encode_pointcloud, encode_pcl,
  with_coder, start_frame, points_to_encode, coarsen,
}
use cwipc.Codec.Single.Expected.{
  in_tile_points, or_black, old_or_new, raised, tile_points-in_tile, points_to_encode-or_black,
  with_coder-old_or_new, coarsen-raised,
}

filter_by-has_tile :
    (tile : ℤ) (ps : List Point)
    → eq_ℤ tile 0 ≡ true
    → filter_by (λ q. has_tile tile (to_pcl q)) ps ≡ ps
filter_by-has_tile tile [] h = refl
filter_by-has_tile tile (p ∷ ps) h = rw h (ap (◌∷◌ p) (filter_by-has_tile tile ps h))

tilefilter_argument :
    (env : Env) (p : Pointcloud) (tile : ℤ) (w : World)
    → (p' : Pointcloud) × ((tilefilter env (some p) tile w).0.0 ≡ some p')
unfolding tilefilter with_pcl
tilefilter_argument env p tile w = ((Virtual.access_pcl_pointcloud p w).0.0, ground arith)

pub shallowcopy-cellsize :
    (env : Env) (p : Pointcloud) (w : World)
    → lt_f (Virtual.cellsize p) zero_f ≡ false
    → Virtual.cellsize (Virtual.shallowcopy env p w).0.1 ≡ Virtual.cellsize p
unfolding Virtual.shallowcopy Virtual.cellsize
shallowcopy-cellsize env (impl p) w h = ground arith
shallowcopy-cellsize env (uncompressed p) w h = ground arith

filter_and_enqueue_lem :
    (env : Env) (pc pc' newpc : Pointcloud) (e : Encoder) (w : World)
    → eq_ℤ e.m_params.tilenumber 0 ≡ false
    → (tilefilter env (some pc) e.m_params.tilenumber w).0.0 ≡ some pc'
    → (tilefilter env (some pc) e.m_params.tilenumber w).0.1 ≡ some newpc
    → (filter_and_enqueue env pc e w).0 ≡ (true, enqueue_encoder newpc e)
unfolding filter_and_enqueue
filter_and_enqueue_lem env pc pc' newpc e w h a b = ground arith

-- The first thread hands on the points of the encoder's tile.
pub filter_and_enqueue-Shows :
    (env : Env) (pc : Pointcloud) (ps : List Point) (e : Encoder) (w : World)
    → Few ps
    → Shows pc ps
    → lt_f (Virtual.cellsize pc) zero_f ≡ false
    → (newpc : Pointcloud) × ((filter_and_enqueue env pc e w).0 ≡ (true, enqueue_encoder newpc e))
      × Shows newpc (filter_by (λ q. has_tile e.m_params.tilenumber (to_pcl q)) ps)
      × (Virtual.timestamp newpc ≡ Virtual.timestamp pc)
      × (Virtual.cellsize newpc ≡ Virtual.cellsize pc)
unfolding filter_and_enqueue
filter_and_enqueue-Shows env pc ps e w few s h = elim (Bool-cases (eq_ℤ e.m_params.tilenumber 0)) [
  | inl all ↦ (pc, rw all refl, rw (filter_by-has_tile e.m_params.tilenumber ps all) s, refl, refl)
  | inr one ↦
      let (pc', argument) = tilefilter_argument env pc e.m_params.tilenumber w in
      let (newpc, made, shows, t, c) =
        tilefilter-Yields env pc ps e.m_params.tilenumber w few s h in
      (newpc, filter_and_enqueue_lem env pc pc' newpc e w one argument made, shows, t, c)
]

-- An object that shows some points is encoded.
pub encode_pointcloud-Shows :
    (codec : Codec) (newpc : Pointcloud) (ps : List Point) (e : Encoder) (w : World)
    → Few ps
    → Shows newpc ps
    → let (coder, e') = with_coder codec e in
      let made = (Virtual.access_pcl_pointcloud newpc w).0.0 in
      (encode_pointcloud codec newpc e w).0
      ≡ (true, encode_pcl codec made (map to_pcl ps) coder (start_frame e'))
unfolding encode_pointcloud
encode_pointcloud-Shows codec newpc ps e w few s = ground (arith, (access-Shows ps few newpc w s).0)

abbrev pub empty_queues : Encoder → Encoder
empty_queues e = record e { m_queue_tilefilter = []; m_queue_encoder = [] }

pub empty_queues_lem :
    (e : Encoder) → e.m_queue_tilefilter ≡ [] → e.m_queue_encoder ≡ [] → empty_queues e ≡ e
empty_queues_lem e tq eq = ground arith

feed_unthreaded_lem :
    (env : Env) (codec : Codec) (pc newpc : Pointcloud) (e e' : Encoder) (w : World)
    → codec.has_room 0 ≡ true
    → (filter_and_enqueue env pc (empty_queues e) w).0
      ≡ (true, enqueue_encoder newpc (empty_queues e))
    → (encode_pointcloud codec newpc
        (empty_queues e)
        (filter_and_enqueue env pc (empty_queues e) w).1).0
      ≡ (true, e')
    → (feed_unthreaded env codec (empty_queues e) pc w).0 ≡ returns e'
unfolding feed_unthreaded
feed_unthreaded_lem env codec pc newpc e e' w room filtered encoded =
    rw (room, filtered, encoded) refl

pub filter_by-Few : (test : Point → Bool) (ps : List Point) → length (filter_by test ps) ≤ length ps
filter_by-Few test [] = omega arith
filter_by-Few test (p ∷ ps) = ground (arith, filter_by-Few test ps)

abbrev tile_points : Encoder → List Point → List PclPoint
tile_points e ps = map to_pcl (filter_by (λ q. has_tile e.m_params.tilenumber (to_pcl q)) ps)

-- After feeding an object that shows `ps`, the encoder's result is what the codec makes of some points with
-- some settings; nothing is left in the queues, the codec's encoder has these settings and has encoded one
-- frame more, and the object is unchanged.
abbrev pub Makes :
    Env → Codec → Pointcloud → List Point → World → Encoder → List PclPoint → Coder → Type 0
Makes env codec p ps w e points coder =
    let frame : Frame = record { points = points; timestamp = Virtual.timestamp p } in
    let result = codec.encode coder points (Virtual.timestamp p) in
    let ((p', rv), w') = feed env codec e p w in
    Shows p' ps
    × ((e' : Encoder) × (rv ≡ returns e')
        × (e'.m_result ≡ some result)
        × (e'.m_result_size ≡ length result)
        × (e'.m_encoder ≡ some (record coder { encoded = coder.encoded ++ frame ∷ [] }))
        × (e'.m_queue_tilefilter ≡ [])
        × (e'.m_queue_encoder ≡ []))

-- The points and the settings, in the words of the code.
abbrev pub Encoded : Env → Codec → Pointcloud → List Point → World → Encoder → Type 0
Encoded env codec p ps w e =
    Makes env codec p ps w e (points_to_encode (tile_points e ps))
      (coarsen (Virtual.cellsize p) (with_coder codec e).0)

pub feed_lem :
    (env : Env) (codec : Codec) (e e' : Encoder) (p : Pointcloud) (w : World)
    → e.m_alive ≡ true
    → e.m_use_threads ≡ false
    → let ((p', copy), w') = Virtual.shallowcopy env p w in
      (feed_unthreaded env codec e copy w').0 ≡ returns e'
      → (feed env codec e p w).0 ≡ ((Virtual.shallowcopy env p w).0.0, returns e')
unfolding feed
feed_lem env codec e e' p w alive unthreaded h = ground arith

pub encode_pcl_lem :
    (codec : Codec) (made : Pointcloud) (pcl_pc : List PclPoint) (coder : Coder) (e : Encoder)
    (t : ℕ) (c : Float32)
    → Virtual.timestamp made ≡ t
    → Virtual.cellsize made ≡ c
    → let e' = encode_pcl codec made pcl_pc coder e in
      let points = points_to_encode pcl_pc in
      let coder' = coarsen c coder in
      let frame : Frame = record { points = points; timestamp = t } in
      (e'.m_result ≡ some (codec.encode coder' points t))
      × (e'.m_result_size ≡ length (codec.encode coder' points t))
      × (e'.m_encoder ≡ some (record coder' { encoded = coder'.encoded ++ frame ∷ [] }))
unfolding encode_pcl
encode_pcl_lem codec made pcl_pc coder e t c ht hc = rw (ht, hc) (refl, refl, refl)

pub encode_pcl-queues :
    (codec : Codec) (made : Pointcloud) (pcl_pc : List PclPoint) (e : Encoder)
    → let (coder, e₁) = with_coder codec e in
      let e' = encode_pcl codec made pcl_pc coder (start_frame e₁) in
      (e'.m_queue_tilefilter ≡ e.m_queue_tilefilter) × (e'.m_queue_encoder ≡ e.m_queue_encoder)
unfolding encode_pcl with_coder
encode_pcl-queues codec made pcl_pc e = ground arith

feed_idle :
    (env : Env) (codec : Codec) (e : Encoder) (p : Pointcloud) (ps : List Point) (w : World)
    → Few ps
    → Shows p ps
    → lt_f (Virtual.cellsize p) zero_f ≡ false
    → e.m_alive ≡ true
    → e.m_use_threads ≡ false
    → codec.has_room 0 ≡ true
    → Encoded env codec p ps w (empty_queues e)
feed_idle env codec e p ps w few s h alive unthreaded room =
    let ((p', copy), w₁) = Virtual.shallowcopy env p w in
    let (left, copied, same_t) = shallowcopy-Shows ps few env p w s in
    let same_c = shallowcopy-cellsize env p w h in
    let (newpc, filtered, shows, t, c) =
      filter_and_enqueue-Shows env copy ps (empty_queues e) w₁ few copied (rw same_c h) in
    let qs = filter_by (λ q. has_tile e.m_params.tilenumber (to_pcl q)) ps in
    let w₂ = (filter_and_enqueue env copy (empty_queues e) w₁).1 in
    let encoded =
      encode_pointcloud-Shows codec newpc qs (empty_queues e) w₂
        (omega (arith, filter_by-Few (λ q. has_tile e.m_params.tilenumber (to_pcl q)) ps)) shows in
    let (same_t', same_c') = access-timestamp newpc w₂ in
    let (coder, e₁) = with_coder codec (empty_queues e) in
    let e' =
      encode_pcl codec (Virtual.access_pcl_pointcloud newpc w₂).0.0 (map to_pcl qs) coder
        (start_frame e₁) in
    let fed =
      feed_lem env codec (empty_queues e) e' p w alive unthreaded
        (feed_unthreaded_lem env codec copy newpc e e' w₁ room filtered encoded) in
    let made = (Virtual.access_pcl_pointcloud newpc w₂).0.0 in
    let (result, size, after) =
      encode_pcl_lem codec made (map to_pcl qs) coder (start_frame e₁) (Virtual.timestamp p)
        (Virtual.cellsize p) (same_t' ∙ t ∙ same_t) (same_c' ∙ c ∙ same_c) in
    let (tq, eq) = encode_pcl-queues codec made (map to_pcl qs) (empty_queues e) in
    rw fed (left, (e', refl, result, size, after, tq, eq))

pub feed-Encoded :
    (env : Env) (codec : Codec) (e : Encoder) (p : Pointcloud) (ps : List Point) (w : World)
    → Few ps
    → Shows p ps
    → lt_f (Virtual.cellsize p) zero_f ≡ false
    → e.m_alive ≡ true
    → e.m_use_threads ≡ false
    → e.m_queue_tilefilter ≡ []
    → e.m_queue_encoder ≡ []
    → codec.has_room 0 ≡ true
    → Encoded env codec p ps w e
feed-Encoded env codec e p ps w few s h alive unthreaded tq eq room =
    subst (Encoded env codec p ps w) (empty_queues_lem e tq eq)
      (feed_idle env codec e p ps w few s h alive unthreaded room)

-- The points are those of the tile; the settings are the old ones with the coarser resolution.
abbrev pub Encodes : Env → Codec → Pointcloud → List Point → World → Encoder → Type 0
Encodes env codec p ps w e =
    Makes env codec p ps w e (or_black (in_tile_points e.m_params.tilenumber ps))
      (raised (Virtual.cellsize p) (old_or_new codec e))

-- An open encoder without threads and with empty queues, fed an object that shows some points and
-- has a cell size that is not negative, where try_enqueue finds room in an empty queue, holds as
-- its result what the codec makes of the points of its tile, or of one black point if there are
-- none, with the settings of the codec's encoder, or of a new one with those of the parameters,
-- but for the resolution, which is the cell size where that is coarser; its queues are empty
-- again, and the object shows the same points.
pub feed-Encodes :
    (env : Env) (codec : Codec) (e : Encoder) (p : Pointcloud) (ps : List Point) (w : World)
    → Few ps
    → Shows p ps
    → lt_f (Virtual.cellsize p) zero_f ≡ false
    → e.m_alive ≡ true
    → e.m_use_threads ≡ false
    → e.m_queue_tilefilter ≡ []
    → e.m_queue_encoder ≡ []
    → codec.has_room 0 ≡ true
    → Encodes env codec p ps w e
feed-Encodes env codec e p ps w few s h alive unthreaded tq eq room =
    let c = Virtual.cellsize p in
    let settings : coarsen c (with_coder codec e).0 ≡ raised c (old_or_new codec e) =
      coarsen-raised c (with_coder codec e).0 ∙ ap (raised c) (with_coder-old_or_new codec e) in
    let points : points_to_encode (tile_points e ps)
        ≡ or_black (in_tile_points e.m_params.tilenumber ps) =
      points_to_encode-or_black (tile_points e ps)
      ∙ ap or_black (tile_points-in_tile e.m_params.tilenumber ps) in
    subst (Makes env codec p ps w e (or_black (in_tile_points e.m_params.tilenumber ps))) settings (
      subst (λ l. Makes env codec p ps w e l (coarsen c (with_coder codec e).0)) points
        (feed-Encoded env codec e p ps w few s h alive unthreaded tq eq room))
