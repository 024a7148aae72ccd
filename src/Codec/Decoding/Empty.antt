-- ===== src/Codec/Decoding/Empty.antt =====
-- Encoding and decoding an empty point cloud (cwipc_codec/src/cwipc_codec.cpp).
use cwipc.Common.{ℕ, ◌≡◌, ◌∙◌, ap, refl, true, false, none, some, List, [], ◌∷◌, map, filter_by}
use cwipc.Float32.{Float32, lt_f, zero_f}
use cwipc.Point.{Point, PclPoint, to_pcl, new_pcl_point}
use cwipc.World.{World, Env}
use cwipc.Pointcloud.{Pointcloud, impl}
use cwipc.Pointcloud.View.{Shows, Few}
use cwipc.Pointcloud.Virtual
use cwipc.Pointcloud.Create
use cwipc.Filters.{has_tile}
use cwipc.Filters.Pointwise.{Yields}
use cwipc.Codec.{Codec, Coder, Decoded, Encoder, returns}
use cwipc.Codec.Single
use cwipc.Codec.Single.{coarsen, with_coder}
use cwipc.Codec.Single.Feed.{feed-Encoded}
use cwipc.Codec.Decoding.{Decoder, is_black, clear_black, with_decoder, feed}

-- What the decoder makes of a packet that decodes to some points.
pub feed-Yields :
    (env : Env) (codec : Codec) (d : Decoder) (packet : List ℕ) (ps : List Point) (t : ℕ)
    (c : Float32) (w : World)
    → d.m_alive ≡ true
    → let decoded = codec.decode (with_decoder d.m_decoder_v2) packet in
      (decoded.ok ≡ true)
      → clear_black (codec.decode (with_decoder d.m_decoder_v2) packet).points ≡ map to_pcl ps
      → (codec.decode (with_decoder d.m_decoder_v2) packet).timestamp ≡ t
      → (codec.decode (with_decoder d.m_decoder_v2) packet).octree_resolution ≡ c
      → lt_f c zero_f ≡ false
      → Yields (feed env codec d packet w).0.m_result ps t c
unfolding feed Create.from_pcl Virtual.set_cellsize Virtual.timestamp Virtual.cellsize
feed-Yields env codec d packet ps t c w alive ok points ht hc h =
    rw (alive, ok, points, ht, hc, h)
      (
        impl (record {
          m_timestamp = t;
          m_cellsize = c;
          m_pc = some (map to_pcl ps);
          m_metadata = none;
        }),
        refl,
        refl,
        refl,
        refl,
      )

-- The codec gives one point back for one black point, near the origin and almost black, with the time
-- stamp and a resolution that is not negative.
abbrev pub KeepsBlack : Codec → Type 0
KeepsBlack codec =
    (coder : Coder) (t : ℕ) (packets : List (List ℕ))
    → (pt : PclPoint) × (c : Float32) × (codec.decode packets
          (codec.encode coder (new_pcl_point ∷ []) t)
        ≡ record { ok = true; points = pt ∷ []; timestamp = t; octree_resolution = c })
      × (is_black pt ≡ true)
      × (lt_f c zero_f ≡ false)

-- Of an object that shows points, none of them in the tile of the encoder, and has a cell size
-- that is not negative, an open encoder without threads and with empty queues makes a packet that
-- an open decoder turns into an empty point cloud with the same time stamp, if try_enqueue finds
-- room in an empty queue and the codec gives for one black point a point that is near the origin
-- and almost black, with the time stamp and a resolution that is not negative.
pub decode-encode_empty :
    (env : Env) (codec : Codec) (e : Encoder) (d : Decoder) (p : Pointcloud) (ps : List Point)
    (w w' : World)
    → Few ps
    → Shows p ps
    → lt_f (Virtual.cellsize p) zero_f ≡ false
    → e.m_alive ≡ true
    → e.m_use_threads ≡ false
    → e.m_queue_tilefilter ≡ []
    → e.m_queue_encoder ≡ []
    → codec.has_room 0 ≡ true
    → d.m_alive ≡ true
    → KeepsBlack codec
    → filter_by (λ q. has_tile e.m_params.tilenumber (to_pcl q)) ps ≡ []
    → (e' : Encoder) × (packet : List ℕ) × (c : Float32) × ((Single.feed env codec e p w).0.1
        ≡ returns e')
      × (e'.m_result ≡ some packet)
      × Yields (feed env codec d packet w').0.m_result [] (Virtual.timestamp p) c
decode-encode_empty env codec e d p ps w w' few s h alive unthreaded tq eq room d_alive black
      none_left =
    let (left, (e', fed, result, size, after, tq', eq')) =
      feed-Encoded env codec e p ps w few s h alive unthreaded tq eq room in
    let coder = coarsen (Virtual.cellsize p) (with_coder codec e).0 in
    let packet = codec.encode coder (new_pcl_point ∷ []) (Virtual.timestamp p) in
    let (pt, c, decoded, is_b, positive) =
      black coder (Virtual.timestamp p) (with_decoder d.m_decoder_v2) in
    (
      e',
      packet,
      c,
      fed,
      rw none_left at result,
      feed-Yields env codec d packet [] (Virtual.timestamp p) c w' d_alive
          (ap (λ (r : Decoded). r.ok) decoded)
          (ap (λ (r : Decoded). clear_black r.points) decoded ∙ rw is_b refl)
          (ap (λ (r : Decoded). r.timestamp) decoded)
          (ap (λ (r : Decoded). r.octree_resolution) decoded) positive,
    )
