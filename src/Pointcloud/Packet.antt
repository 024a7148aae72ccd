-- ===== src/Pointcloud/Packet.antt =====
-- cwipc_util/src/cwipc_util.cpp: the packet that `copy_packet` writes is read back by
-- `cwipc_from_packet`.
use mathlib.Core.List.{append-nil}
use cwipc.Common.{
  ap, take_all, ◌∙◌, ◌/◌, ℕ, ◌+◌, ◌*◌, ◌^◌, ◌<◌, ◌≡◌, refl, Option, some, List, [], ◌++◌, length,
  All, arith, drop, Bool, true, false, ◌==◌, if◌then◌else◌,
}
use cwipc.Common.Int.{pos}
use cwipc.Words.{le_value, le_bytes, le_value-le_bytes, to_int, bytes_eq_self}
use cwipc.Float32.{Float32, lt_f, zero_f}
use cwipc.Point.{Point, Fits, sizeof_point}
use cwipc.Point.Encoding.{encode_points, decode_points, decode_points-encode_points}
use cwipc.World.{World, Env, set_errorbuf}
use cwipc.Pointcloud.{Uncompressed, Pointcloud, impl, uncompressed}
use cwipc.Pointcloud.Raw
use cwipc.Pointcloud.View.{
  Shows, Few, get_uncompressed_size-Shows, copy_uncompressed-Shows, access-Shows,
}
use cwipc.Pointcloud.Virtual.{
  Header, dump_header, encode_header, decode_header, dump, sizeof_header, copy_packet, timestamp,
  cellsize, packet_of,
}
use cwipc.Pointcloud.Virtual
use cwipc.Pointcloud.Create
use cwipc.Pointcloud.Create.{api_version}

-- The header of a packet is read back as it was written, and the data follows it.
decode_dump :
    (t c n : ℕ) (rest : List ℕ)
    → t < 2 ^ 64
    → c < 2 ^ 32
    → n < 2 ^ 64
    → (decode_header (encode_header (dump t c n) ++ rest) ≡ dump t c n)
      × (drop sizeof_header (encode_header (dump t c n) ++ rest) ≡ rest)
unfolding decode_header encode_header le_bytes le_value
decode_dump t c n rest ht hc hn = (
  ground (arith, le_value-le_bytes 8 t ht, le_value-le_bytes 4 c hc, le_value-le_bytes 8 n hn),
  refl,
)

-- The size in bytes of the packet for some points.
abbrev pub packet_size : List Point → ℕ
packet_size ps = sizeof_header + sizeof_point * length ps

abbrev pub packet : ℕ → Float32 → List Point → List ℕ
packet t c ps = encode_header (dump t c (sizeof_point * length ps)) ++ encode_points ps

pub access-timestamp :
    (p : Pointcloud) (w : World)
    → let p' = (Virtual.access_pcl_pointcloud p w).0.0 in
      (timestamp p' ≡ timestamp p) × (cellsize p' ≡ cellsize p)
unfolding Virtual.access_pcl_pointcloud timestamp cellsize
access-timestamp (impl p) w = (refl, refl)
access-timestamp (uncompressed p) w = ground arith

packet_of-Shows :
    (p : Pointcloud) (ps : List Point) (w : World) (has_packet : Bool) (size : ℕ)
    → Few ps
    → Shows p ps
    → packet_of p has_packet size w ≡ (
      if has_packet
          then (if size == packet_size ps
              then (packet_size ps, packet (timestamp p) (cellsize p) ps)
              else (0, []))
          else (packet_size ps, []),
      w,
    )
unfolding packet_of
packet_of-Shows p ps w has_packet size few s =
    ground (arith, get_uncompressed_size-Shows ps few p w s, copy_uncompressed-Shows ps few p w s)

-- An object that shows some points writes the header and the points to a buffer of just the size
-- that they need and returns that size; it returns that size for a NULL buffer, and 0 with
-- nothing written for a buffer of another size; and it still shows the points.
pub copy_packet-Shows :
    (p : Pointcloud) (ps : List Point) (w : World) (has_packet : Bool) (size : ℕ)
    → Few ps
    → Shows p ps
    → let (p', written, bytes) = (copy_packet p has_packet size w).0 in
      (◌≡◌ {A = ℕ × List ℕ}
        (written, bytes)
        (if has_packet
          then (if size == packet_size ps
              then (packet_size ps, packet (timestamp p) (cellsize p) ps)
              else (0, []))
          else (packet_size ps, [])))
      × Shows p' ps
unfolding copy_packet
copy_packet-Shows p ps w has_packet size few s =
    let ((p', pc), w') = Virtual.access_pcl_pointcloud p w in
    let (made, shows) = access-Shows ps few p w s in
    let (same_timestamp, same_cellsize) = access-timestamp p w in
    let copied = packet_of-Shows p' ps w' has_packet size few shows in
    ground (arith, made, copied, same_timestamp, same_cellsize, shows)

pub from_points-Shows :
    (env : Env) (ps : List Point) (t : ℕ) (w : World)
    → env.malloc (sizeof_point * length ps) ≡ true
    → Few ps
    → let n = sizeof_point * length ps in
      let (rv, w') =
        Raw.from_points env Raw.null_uncompressed ps n (to_int (n / sizeof_point)) t w in
      (rv.0 ≡ pos (length ps)) × Shows (uncompressed rv.1) ps × (rv.1.base.m_timestamp ≡ t)
unfolding Raw.from_points
from_points-Shows env ps t w m few = ground (arith, take_all ps)

pub raw_set_cellsize-Shows :
    (env : Env) (p : Uncompressed) (ps : List Point) (c : Float32) (w : World)
    → Few ps
    → lt_f c zero_f ≡ false
    → Shows (uncompressed p) ps
    → let (p', w') = Raw.set_cellsize env p c w in
      Shows (uncompressed p') ps
      × (p'.base.m_cellsize ≡ c)
      × (p'.base.m_timestamp ≡ p.base.m_timestamp)
unfolding Raw.set_cellsize
raw_set_cellsize-Shows env p ps c w few positive s = ground (arith, take_all ps)

-- The values of an object's fields fit their machine types, and its cell size is not negative.
pub record IsPacked (t : ℕ) (c : Float32) (ps : List Point) : Type 0 where
  pub few : Few ps
  pub timestamp_lt : t < 2 ^ 64
  pub cellsize_lt : c < 2 ^ 32
  pub cellsize_ge : lt_f c zero_f ≡ false
  pub fits : All Fits ps

pub decode_whole :
    (ps : List Point)
    → All Fits ps
    → decode_points (sizeof_point * length ps / sizeof_point) (encode_points ps) ≡ ps
decode_whole ps fits =
    let count : sizeof_point * length ps / sizeof_point ≡ length ps = omega arith in
    let whole = decode_points-encode_points ps [] fits in rw count (rw append-nil at whole)

from_packet_points-packet :
    (env : Env) (t : ℕ) (c : Float32) (ps : List Point) (w : World)
    → env.malloc (sizeof_point * length ps) ≡ true
    → IsPacked t c ps
    → let n = sizeof_point * length ps in
      (q : Uncompressed) × ((Create.from_packet_points env (dump t c n) (encode_points ps) n w).0
        ≡ some (uncompressed q))
      × Shows (uncompressed q) ps
      × (q.base.m_timestamp ≡ t)
      × (q.base.m_cellsize ≡ c)
unfolding Create.from_packet_points
from_packet_points-packet env t c ps w m packed =
    let n = sizeof_point * length ps in
    let (rv, w') = Raw.from_points env Raw.null_uncompressed ps n (to_int (n / sizeof_point)) t w in
    let (returned, shows, stamped) = from_points-Shows env ps t w m packed.few in
    let (kept, sized, still) =
      raw_set_cellsize-Shows env rv.1 ps c w' packed.few packed.cellsize_ge shows in
    (
      (Raw.set_cellsize env rv.1 c w').0,
      rw (decode_whole ps packed.fits, returned) (ground arith),
      kept,
      still ∙ stamped,
      sized,
    )

-- `cwipc_from_packet` makes of the packet for some points an object that shows these points, with the
-- time stamp and the cell size of the packet.
pub from_packet-packet :
    (env : Env) (t : ℕ) (c : Float32) (ps : List Point) (err : Option ℕ) (w : World)
    → env.malloc (sizeof_point * length ps) ≡ true
    → IsPacked t c ps
    → (q : Uncompressed) × ((Create.from_packet env
          (packet t c ps)
          (packet_size ps)
          err
          api_version
          w).0
        ≡ some (uncompressed q))
      × Shows (uncompressed q) ps
      × (q.base.m_timestamp ≡ t)
      × (q.base.m_cellsize ≡ c)
unfolding Create.from_packet Create.check_packet
from_packet-packet env t c ps err w m packed =
    let n = sizeof_point * length ps in
    let (header, points) =
      decode_dump t c n (encode_points ps) packed.timestamp_lt packed.cellsize_lt
        (omega (arith, packed.few)) in
    let (q, made, shows, stamped, sized) =
      from_packet_points-packet env t c ps (set_errorbuf err w).1 m packed in
    (
      q,
      rw (header, points) (ground (arith, made, bytes_eq_self dump_header)),
      shows,
      stamped,
      sized,
    )

-- The packet that an object which shows some points writes is read back by cwipc_from_packet as
-- an object that shows the same points, with the same time stamp and cell size, if its memory can
-- be allocated, the values fit their types and the cell size is not negative.
pub from_packet-copy_packet :
    (env : Env) (p : Pointcloud) (ps : List Point) (err : Option ℕ) (w w' : World)
    → env.malloc (sizeof_point * length ps) ≡ true
    → IsPacked (timestamp p) (cellsize p) ps
    → Shows p ps
    → let (p', written, bytes) = (copy_packet p true (packet_size ps) w).0 in
      (q : Uncompressed) × ((Create.from_packet env bytes written err api_version w').0
        ≡ some (uncompressed q))
      × Shows (uncompressed q) ps
      × (q.base.m_timestamp ≡ timestamp p)
      × (q.base.m_cellsize ≡ cellsize p)
from_packet-copy_packet env p ps err w w' m packed s =
    let n = packet_size ps in
    let out : copied ≡ (n, packet (timestamp p) (cellsize p) ps) =
      (copy_packet-Shows p ps w true n packed.few s).0 ∙ ground arith in
    rw (ap (λ (r : ℕ × List ℕ). r.0) out, ap (λ (r : ℕ × List ℕ). r.1) out)
      (from_packet-packet env (timestamp p) (cellsize p) ps err w' m packed)
  where
    copied : ℕ × List ℕ
    copied =
        let (p', written, bytes) = (copy_packet p true (packet_size ps) w).0 in (written, bytes)
