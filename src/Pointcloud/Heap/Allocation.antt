-- ===== src/Pointcloud/Heap/Allocation.antt =====
-- cwipc_util/src/cwipc_util.cpp: the allocation counters tell how many objects still hold memory.
use cwipc.Common.{
  All, ℕ, ◌<◌, ◌^◌, ◌/◌, drop, zero, suc, ◌+◌, ◌≡◌, Bool, true, false, Option, none, some, List, [],
  ◌∷◌, ◌++◌, arith,
}
use cwipc.Common.Int.{ℤ, pos, negsuc, ltb_ℤ}
use cwipc.Words.{to_int, sub_size}
use cwipc.Pointcloud.Raw.{null_uncompressed}
use cwipc.Float32.{Float32}
use cwipc.Point.{Point, PclPoint, sizeof_point}
use cwipc.Point.Encoding.{decode_points}
use cwipc.Pointcloud.Virtual.{Header, decode_header, sizeof_header}
use cwipc.World.{World, Env, fresh_world, set_errorbuf}
use cwipc.Pointcloud.{Uncompressed, Pointcloud, uncompressed}
use cwipc.Pointcloud.Raw
use cwipc.Pointcloud.Create
use cwipc.Pointcloud.Heap.{Call, Method, call, call_at, add_object, step, run}
use cwipc.Pointcloud.Heap.Accounts.{
  Accounts, AccountsObject, pcl_count, raw_count, free-Accounts, access-Accounts,
  set_cellsize-Accounts, set_timestamp-Accounts, access_metadata-Accounts, shallowcopy-Accounts,
  count-Accounts, get_uncompressed_size-Accounts, copy_uncompressed-Accounts, copy_packet-Accounts,
}

-- How many of the objects hold a PCL cloud, and how many a raw array.
abbrev pub compressed_objects : List Pointcloud → ℕ
compressed_objects [] = 0
compressed_objects (p ∷ heap) = pcl_count p + compressed_objects heap

abbrev pub raw_objects : List Pointcloud → ℕ
raw_objects [] = 0
raw_objects (p ∷ heap) = raw_count p + raw_objects heap

abbrev AccountsHeap : World → World → List Pointcloud → List Pointcloud → Type 0
AccountsHeap w w' heap heap' =
    Accounts w w' (compressed_objects heap) (compressed_objects heap') (raw_objects heap)
      (raw_objects heap')

-- An object that a call may make.
abbrev made_heap : Option Pointcloud → List Pointcloud
made_heap none = []
made_heap (some p) = p ∷ []

objects-append :
    (heap heap' : List Pointcloud)
    → (compressed_objects (heap ++ heap') ≡ compressed_objects heap + compressed_objects heap')
      × (raw_objects (heap ++ heap') ≡ raw_objects heap + raw_objects heap')
objects-append [] heap' = omega arith
objects-append (p ∷ heap) heap' = omega (arith, objects-append heap heap')

objects-add_object :
    (o : Option Pointcloud) (heap : List Pointcloud)
    → (compressed_objects (add_object o heap)
        ≡ compressed_objects heap + compressed_objects (made_heap o))
      × (raw_objects (add_object o heap) ≡ raw_objects heap + raw_objects (made_heap o))
objects-add_object none heap = omega arith
objects-add_object (some p) heap = objects-append heap (p ∷ [])

from_pcl-Accounts :
    (pc : Option (List PclPoint)) (t : ℕ) (err : Option ℕ) (v : ℕ) (w : World)
    → let (rv, w') = Create.from_pcl pc t err v w in AccountsHeap w w' [] (made_heap rv)
unfolding Create.from_pcl
from_pcl-Accounts none t err v w = ground arith
from_pcl-Accounts (some pc) t err v w = ground arith

-- An `int`, and an allocator that cannot give half of the address space: no array has negative size.
abbrev pub IsInt : ℤ → Type 0
IsInt (pos n) = n < 2 ^ 31
IsInt (negsuc n) = n < 2 ^ 31

abbrev pub HasLimit : Env → Type 0
HasLimit env = (size : ℕ) → env.malloc size ≡ true → size < 2 ^ 63

to_int-IsInt : (n : ℕ) → IsInt (to_int n)
to_int-IsInt n = ground arith

-- What the entry points make of the result of `from_points` on a fresh object.
new_points_result :
    (env : Env) (ps : List Point) (size : ℕ) (n : ℤ) (t : ℕ) (w : World)
    → HasLimit env
    → IsInt n
    → let (rv, w') = Raw.from_points env null_uncompressed ps size n t w in
      (ltb_ℤ rv.0 (pos 0) ≡ true → Accounts w w' 0 0 0 0)
      × (ltb_ℤ rv.0 (pos 0) ≡ false → AccountsHeap w w' [] (uncompressed rv.1 ∷ []))
unfolding Raw.from_points
new_points_result env ps size (pos n) t w limit int = ground arith
new_points_result env ps size (negsuc n) t w limit int = ground (arith, limit size)

from_points-Accounts :
    (env : Env) (ps : List Point) (size : ℕ) (n : ℤ) (t : ℕ) (err : Option ℕ) (v : ℕ) (w : World)
    → HasLimit env
    → IsInt n
    → let (rv, w') = Create.from_points env ps size n t err v w in
      AccountsHeap w w' [] (made_heap rv)
unfolding Create.from_points
from_points-Accounts env ps size n t err v w limit int =
    ground (arith, new_points_result env ps size n t (set_errorbuf err w).1 limit int)

raw_set_cellsize-Accounts :
    (env : Env) (p : Uncompressed) (c : Float32) (w : World)
    → let (p', w') = Raw.set_cellsize env p c w in
      AccountsObject w w' (uncompressed p) (uncompressed p')
unfolding Raw.set_cellsize
raw_set_cellsize-Accounts env p c w = ground arith

from_packet_points-Accounts :
    (env : Env) (h : Header) (bytes : List ℕ) (size : ℕ) (w : World)
    → HasLimit env
    → let (rv, w') = Create.from_packet_points env h bytes size w in
      AccountsHeap w w' [] (made_heap rv)
unfolding Create.from_packet_points
from_packet_points-Accounts env h bytes size w limit =
    let n = to_int (h.size / sizeof_point) in
    let ps = decode_points (size / sizeof_point) bytes in
    let (rv, w') = Raw.from_points env null_uncompressed ps size n h.timestamp w in
    ground (
      arith,
      new_points_result env ps size n h.timestamp w limit (to_int-IsInt (h.size / sizeof_point)),
      raw_set_cellsize-Accounts env rv.1 h.cellsize w',
    )

from_packet-Accounts :
    (env : Env) (packet : List ℕ) (size : ℕ) (err : Option ℕ) (v : ℕ) (w : World)
    → HasLimit env
    → let (rv, w') = Create.from_packet env packet size err v w in
      AccountsHeap w w' [] (made_heap rv)
unfolding Create.from_packet Create.check_packet
from_packet-Accounts env packet size err v w limit = ground (
  arith,
  from_packet_points-Accounts env (decode_header packet) (drop sizeof_header packet)
      (sub_size size sizeof_header) (set_errorbuf err w).1 limit,
)

call-Accounts :
    (env : Env) (m : Method) (p : Pointcloud) (w : World)
    → let ((p', rv), w') = call env m p w in AccountsHeap w w' (p ∷ []) (p' ∷ made_heap rv)
unfolding call
call-Accounts env Method.free p w = ground (arith, free-Accounts p w)
call-Accounts env Method.shallowcopy p w = ground (arith, shallowcopy-Accounts env p w)
call-Accounts env Method.count p w = ground (arith, count-Accounts p w)
call-Accounts env Method.get_uncompressed_size p w =
    ground (arith, get_uncompressed_size-Accounts p w)
call-Accounts env Method.access_pcl_pointcloud p w = ground (arith, access-Accounts p w)
call-Accounts env Method.access_metadata p w = ground (arith, access_metadata-Accounts p w)
call-Accounts env (Method.set_cellsize c) p w = ground (arith, set_cellsize-Accounts env p c w)
call-Accounts env (Method.set_timestamp t) p w = ground (arith, set_timestamp-Accounts p t w)
call-Accounts env (Method.copy_uncompressed size) p w =
    ground (arith, copy_uncompressed-Accounts p size w)
call-Accounts env (Method.copy_packet has_packet size) p w =
    ground (arith, copy_packet-Accounts p has_packet size w)

call_at-Accounts :
    (env : Env) (m : Method) (i : ℕ) (heap : List Pointcloud) (w : World)
    → let ((heap', rv), w') = call_at env m i heap w in
      AccountsHeap w w' heap (heap' ++ made_heap rv)
unfolding call_at
call_at-Accounts env m i [] w = ground arith
call_at-Accounts env m zero (p ∷ heap) w =
    let ((p', rv), w') = call env m p w in
    ground (arith, call-Accounts env m p w, objects-append heap (made_heap rv))
call_at-Accounts env m (suc i) (p ∷ heap) w = ground (arith, call_at-Accounts env m i heap w)

-- The arguments that are `int`s have the values of one.
abbrev pub IsTyped : Call → Type 0
IsTyped (Call.from_points ps size n t err v) = IsInt n
IsTyped _ = Unit

pub record IsBalanced (heap : List Pointcloud) (w : World) : Type 0 where
  pub compressed :
      w.n_cwipc_pointcloud_alloc ≡ w.n_cwipc_pointcloud_dealloc + compressed_objects heap
  pub raw :
      w.n_cwipc_uncompressed_pointcloud_alloc
      ≡ w.n_cwipc_uncompressed_pointcloud_dealloc + raw_objects heap

step-Accounts :
    (env : Env) (c : Call) (heap : List Pointcloud) (w : World)
    → HasLimit env
    → IsTyped c
    → let (heap', w') = step env c heap w in AccountsHeap w w' heap heap'
unfolding step
step-Accounts env (Call.from_pcl pc t err v) heap w limit typed = ground (
  arith,
  from_pcl-Accounts pc t err v w,
  objects-add_object (Create.from_pcl pc t err v w).0 heap,
)
step-Accounts env (Call.from_points ps size n t err v) heap w limit typed = ground (
  arith,
  from_points-Accounts env ps size n t err v w limit typed,
  objects-add_object (Create.from_points env ps size n t err v w).0 heap,
)
step-Accounts env (Call.from_packet packet size err v) heap w limit typed = ground (
  arith,
  from_packet-Accounts env packet size err v w limit,
  objects-add_object (Create.from_packet env packet size err v w).0 heap,
)
step-Accounts env (Call.method i m) heap w limit typed =
    let ((heap', rv), w') = call_at env m i heap w in
    ground (
      arith,
      call_at-Accounts env m i heap w,
      objects-add_object rv heap',
      objects-append heap' (made_heap rv),
    )

-- Every call keeps the counters equal to the memory that the objects hold.
pub step-IsBalanced :
    (env : Env) (c : Call) (heap : List Pointcloud) (w : World)
    → HasLimit env
    → IsTyped c
    → IsBalanced heap w
    → let (heap', w') = step env c heap w in IsBalanced heap' w'
step-IsBalanced env c heap w limit typed b = omega (arith, step-Accounts env c heap w limit typed)

run-IsBalanced :
    (env : Env) (cs : List Call) (heap : List Pointcloud) (w : World)
    → HasLimit env
    → All IsTyped cs
    → IsBalanced heap w
    → let (heap', w') = run env cs heap w in IsBalanced heap' w'
unfolding run
run-IsBalanced env [] heap w limit typed b = b
run-IsBalanced env (c ∷ cs) heap w limit (typed, rest) b =
    let (heap', w') = step env c heap w in
    run-IsBalanced env cs heap' w' limit rest (step-IsBalanced env c heap w limit typed b)

-- After any sequence of calls on point clouds from the start of the process, where the allocator
-- gives no block of half the address space or more and the ints are ints,
-- cwipc_dangling_allocations returns the number of objects that hold a PCL cloud plus the number
-- of those that hold a raw array.
pub dangling_allocations-run :
    (env : Env) (cs : List Call) (log_wanted : Bool)
    → HasLimit env
    → All IsTyped cs
    → let (heap, w) = run env cs [] fresh_world in
      (Create.dangling_allocations log_wanted w).0 ≡ compressed_objects heap + raw_objects heap
unfolding Create.dangling_allocations
dangling_allocations-run env cs log_wanted limit typed =
    let (heap, w) = run env cs [] fresh_world in
    let b : IsBalanced heap w = run-IsBalanced env cs [] fresh_world limit typed (omega arith) in
    ground (arith, b.compressed, b.raw)
