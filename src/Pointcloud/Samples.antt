-- ===== src/Pointcloud/Samples.antt =====
-- Concrete point clouds, and the theorems on them at these.
use cwipc.Common.{ℕ, ◌≡◌, ◌+◌, ◌^◌, refl, none, some, arith, List, [], ◌∷◌, ltb, true, false, inl}
use cwipc.Common.Int.{pos}
use cwipc.Point.{Point}
use cwipc.World.{Env, fresh_world}
use cwipc.Metadata.{Item, add, move, destroy}
use cwipc.Metadata.Ownership.{destroy-move}
use cwipc.Pointcloud.{Impl, Uncompressed, Pointcloud, impl, uncompressed}
use cwipc.Pointcloud.Virtual
use cwipc.Pointcloud.Create
use cwipc.Pointcloud.Create.{api_version}
use cwipc.Pointcloud.View.{Shows, copy_uncompressed-Shows, shallowcopy-Shows}
use cwipc.Pointcloud.Packet.{copy_packet-Shows, from_packet-copy_packet, IsPacked, packet}
use cwipc.Pointcloud.Heap.{Call, Method, run}
use cwipc.Pointcloud.Heap.Allocation.{
  dangling_allocations-run, compressed_objects, raw_objects, HasLimit,
}

-- An allocator that gives blocks of less than 2 ^ 40 bytes, and no distance but 1.0.
abbrev pub sample_env : Env
sample_env = record { malloc = λ n. ltb n (2 ^ 40); distance = λ p q. 0x3f80_0000 }

abbrev pub red : Point
red = record { x = 0x3f80_0000; y = 0; z = 0x8000_0000; r = 255; g = 0; b = 0; tile = 1 }

abbrev pub blue : Point
blue = record { x = 0x4000_0000; y = 0; z = 0; r = 0; g = 0; b = 255; tile = 2 }

abbrev pub two_points : List Point
two_points = red ∷ blue ∷ []

abbrev pub sample : Pointcloud
sample = uncompressed (record {
  base = record { m_timestamp = 1000; m_cellsize = 0x3c23_d70a; m_pc = none; m_metadata = none };
  m_points = some two_points;
  m_points_size = 32;
})

abbrev pub sample-Shows : Shows sample two_points
sample-Shows = (refl, refl, inl refl)

makes_sample :
    (Create.from_points sample_env two_points 32 (pos 2) 1000 none api_version fresh_world).0
    ≡ some (
        uncompressed (record {
          base = record { m_timestamp = 1000; m_cellsize = 0; m_pc = none; m_metadata = none };
          m_points = some two_points;
          m_points_size = 32;
        }))
unfolding Create.from_points cwipc.Pointcloud.Raw.from_points
makes_sample = refl

copy_uncompressed-Shows_example :
    Virtual.copy_uncompressed sample 32 fresh_world ≡ ((pos 2, two_points), fresh_world)
copy_uncompressed-Shows_example =
    copy_uncompressed-Shows two_points (omega arith) sample fresh_world sample-Shows

shallowcopy-Shows_example :
    let ((p', rv), w') = Virtual.shallowcopy sample_env sample fresh_world in
    Shows p' two_points × Shows rv two_points × (Virtual.timestamp rv ≡ Virtual.timestamp sample)
shallowcopy-Shows_example =
    shallowcopy-Shows two_points (omega arith) sample_env sample fresh_world sample-Shows

copy_packet-Shows_example :
    let (p', written, bytes) = (Virtual.copy_packet sample true 64 fresh_world).0 in
    (◌≡◌ {A = ℕ × List ℕ}
      (written, bytes)
      (64, packet (Virtual.timestamp sample) (Virtual.cellsize sample) two_points))
    × Shows p' two_points
copy_packet-Shows_example =
    copy_packet-Shows sample two_points fresh_world true 64 (omega arith) sample-Shows

sample-IsPacked : IsPacked (Virtual.timestamp sample) (Virtual.cellsize sample) two_points
unfolding Virtual.timestamp Virtual.cellsize
sample-IsPacked = ground arith

from_packet-copy_packet_example :
    let (p', written, bytes) = (Virtual.copy_packet sample true 64 fresh_world).0 in
    (q : Uncompressed) × ((Create.from_packet sample_env bytes written none api_version
        fresh_world).0
      ≡ some (uncompressed q))
    × Shows (uncompressed q) two_points
    × (q.base.m_timestamp ≡ Virtual.timestamp sample)
    × (q.base.m_cellsize ≡ Virtual.cellsize sample)
from_packet-copy_packet_example =
    from_packet-copy_packet sample_env sample two_points none fresh_world fresh_world refl
      sample-IsPacked sample-Shows

sample_env-HasLimit : HasLimit sample_env
sample_env-HasLimit size h = ground arith

-- A cloud is made from points, copied, and freed; the copy stays.
abbrev history : List Call
history =
    Call.from_points two_points 32 (pos 2) 1000 none api_version
    ∷ Call.method 0 Method.shallowcopy
    ∷ Call.method 0 Method.free
    ∷ []

dangling_allocations-run_example :
    let (heap, w) = run sample_env history [] fresh_world in
    (Create.dangling_allocations false w).0 ≡ compressed_objects heap + raw_objects heap
dangling_allocations-run_example =
    dangling_allocations-run sample_env history false sample_env-HasLimit (omega arith)

abbrev camera_item : Item
camera_item = record { name = "rgb.1"; description = ""; pointer = 64; size = 12; dealloc = 3 }

destroy-move_example :
    let (src', dest') = move (add camera_item []) [] in
    (destroy dest' (destroy src' fresh_world).1).1.deallocs ≡ (3, 64) ∷ []
destroy-move_example = destroy-move [] [] camera_item fresh_world
