-- ===== src/Codec/Single/Blocks.antt =====
-- `cwipc_encoder_impl::feed` without threads (cwipc_codec/src/cwipc_codec.cpp), where the tile filter
-- fails.
use cwipc.Common.{◌≡◌, refl, true, false, none, []}
use mathlib.Core.Path.{subst}
use cwipc.World.{World, Env}
use cwipc.Pointcloud.{Impl, impl}
use cwipc.Pointcloud.Base
use cwipc.Pointcloud.Virtual
use cwipc.Filters.{tilefilter, with_pcl, eq_ℤ}
use cwipc.Codec.{Codec, Encoder, blocks}
use cwipc.Codec.Single.{feed, feed_unthreaded, filter_and_enqueue}
use cwipc.Codec.Single.Feed.{empty_queues, empty_queues_lem}

feed_idle-blocks :
    (env : Env) (codec : Codec) (e : Encoder) (p : Impl) (w : World)
    → p.m_pc ≡ none
    → eq_ℤ e.m_params.tilenumber 0 ≡ false
    → e.m_alive ≡ true
    → e.m_use_threads ≡ false
    → codec.has_room 0 ≡ true
    → (feed env codec (empty_queues e) (impl p) w).0.1 ≡ blocks
unfolding feed feed_unthreaded filter_and_enqueue tilefilter with_pcl Virtual.shallowcopy
    Virtual.access_pcl_pointcloud Base.shallowcopy
feed_idle-blocks env codec e p w freed tile alive unthreaded room =
    rw (alive, unthreaded, room, tile, freed) refl

-- An object of the class cwipc_impl that holds no cloud, as a freed one, fed to an open encoder
-- of one tile that has no threads and has empty queues, makes feed wait forever in the empty
-- queue of the encoder, if try_enqueue finds room in an empty queue.
pub feed-blocks :
    (env : Env) (codec : Codec) (e : Encoder) (p : Impl) (w : World)
    → p.m_pc ≡ none
    → eq_ℤ e.m_params.tilenumber 0 ≡ false
    → e.m_alive ≡ true
    → e.m_use_threads ≡ false
    → e.m_queue_tilefilter ≡ []
    → e.m_queue_encoder ≡ []
    → codec.has_room 0 ≡ true
    → (feed env codec e (impl p) w).0.1 ≡ blocks
feed-blocks env codec e p w freed tile alive unthreaded tq eq room =
    subst (λ x. (feed env codec x (impl p) w).0.1 ≡ blocks) (empty_queues_lem e tq eq)
      (feed_idle-blocks env codec e p w freed tile alive unthreaded room)
