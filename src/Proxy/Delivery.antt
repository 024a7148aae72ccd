-- ===== src/Proxy/Delivery.antt =====
-- What the server of cwipc_util/src/cwipc_proxy.cpp delivers.
use cwipc.Common.{ℕ, ◌*◌, ◌/◌, ◌^◌, ◌<◌, ◌≡◌, ◌∙◌, true, Option, some, List, ◌++◌, length, arith}
use cwipc.Words.{le_value, le_bytes, le_value-le_bytes, to_int}
use cwipc.Float32.{Float32}
use cwipc.Point.{Point, sizeof_point}
use cwipc.Point.Encoding.{encode_points, decode_points}
use cwipc.World.{World, Env, set_errorbuf}
use cwipc.Pointcloud.{Uncompressed, Pointcloud, uncompressed}
use cwipc.Pointcloud.Raw
use cwipc.Pointcloud.View.{Shows, Few}
use cwipc.Pointcloud.Packet.{IsPacked, from_points-Shows, raw_set_cellsize-Shows, decode_whole}
use cwipc.Pointcloud.Virtual
use cwipc.Pointcloud.Create
use cwipc.Pointcloud.Create.{api_version}
use cwipc.Proxy.{
  Proxy, Input, PacketHeader, packetheader_magic, decode_packetheader, message_cell, clear_cell,
  forward, convert, receive, serve, server_turn, recvall,
}

-- The header of a packet for some points, as the sender writes it.
abbrev pub header_for : ℕ → Float32 → List Point → PacketHeader
header_for t c ps = record {
  magic = packetheader_magic;
  data_count = sizeof_point * length ps;
  timestamp = t;
  cellsize = c;
  unused = 0;
}

unfoldable pub encode_packetheader : PacketHeader → List ℕ
encode_packetheader h =
    le_bytes 4 h.magic
    ++ (le_bytes 4 h.data_count
        ++ (le_bytes 8 h.timestamp ++ (le_bytes 4 h.cellsize ++ le_bytes 4 h.unused)))

decode-encode_packetheader :
    (t c : ℕ) (ps : List Point)
    → t < 2 ^ 64
    → c < 2 ^ 32
    → sizeof_point * length ps < 2 ^ 32
    → decode_packetheader (encode_packetheader (header_for t c ps)) ≡ header_for t c ps
unfolding decode_packetheader encode_packetheader le_bytes le_value
decode-encode_packetheader t c ps ht hc hn = ground (
  arith,
  le_value-le_bytes 8 t ht,
  le_value-le_bytes 4 c hc,
  le_value-le_bytes 4 (sizeof_point * length ps) hn,
)

-- A raw object is made of an array of the right size.
from_points-made :
    (env : Env) (ps : List Point) (t : ℕ) (err : Option ℕ) (w : World)
    → env.malloc (sizeof_point * length ps) ≡ true
    → Few ps
    → let n = sizeof_point * length ps in
      (q : Uncompressed) × ((Create.from_points env ps n
          (to_int (n / sizeof_point))
          t
          err
          api_version
          w).0
        ≡ some (uncompressed q))
      × Shows (uncompressed q) ps
      × (q.base.m_timestamp ≡ t)
unfolding Create.from_points
from_points-made env ps t err w m few =
    let n = sizeof_point * length ps in
    let w₁ = (set_errorbuf err w).1 in
    let (rv, w₂) =
      Raw.from_points env Raw.null_uncompressed ps n (to_int (n / sizeof_point)) t w₁ in
    let (count, shows, stamped) = from_points-Shows env ps t w₁ m few in
    (rv.1, rw count (ground arith), shows, stamped)

forward_lem :
    (input : Input) (pc : Pointcloud) (s : Proxy) (w : World)
    → s.m_socket ≡ true
    → (forward input pc s w).0 ≡ record s { m_pc = some pc; m_socket = input.sent }
unfolding forward
forward_lem input pc s w h = ground arith

convert_step :
    (env : Env) (input : Input) (h : PacketHeader) (bytes : List ℕ) (ps : List Point) (s : Proxy)
    (q : Pointcloud) (w : World)
    → decode_points (h.data_count / sizeof_point) bytes ≡ ps
    → let made =
        Create.from_points env ps h.data_count
          (to_int (h.data_count / sizeof_point))
          h.timestamp
          (some message_cell)
          api_version
          (clear_cell w).1 in
      (made.0 ≡ some q)
      → let made =
          Create.from_points env ps h.data_count
            (to_int (h.data_count / sizeof_point))
            h.timestamp
            (some message_cell)
            api_version
            (clear_cell w).1 in
        let (q', w₃) = Virtual.set_cellsize env q h.cellsize made.1 in
        (convert env input h bytes s w).0 ≡ (forward input q' s w₃).0
unfolding convert
convert_step env input h bytes ps s q w decoded made = ground arith

convert_lem :
    (env : Env) (input : Input) (t : ℕ) (c : Float32) (ps : List Point) (s : Proxy) (w : World)
    → env.malloc (sizeof_point * length ps) ≡ true
    → IsPacked t c ps
    → s.m_socket ≡ true
    → (q : Uncompressed) × ((convert env input (header_for t c ps) (encode_points ps) s w).0
        ≡ record s { m_pc = some (uncompressed q); m_socket = input.sent })
      × Shows (uncompressed q) ps
      × (q.base.m_timestamp ≡ t)
      × (q.base.m_cellsize ≡ c)
unfolding Virtual.set_cellsize
convert_lem env input t c ps s w m packed open_socket =
    let n = sizeof_point * length ps in
    let w₁ = (clear_cell w).1 in
    let (q, made, shows, stamped) = from_points-made env ps t (some message_cell) w₁ m packed.few in
    let w₂ =
      (Create.from_points env ps n (to_int (n / sizeof_point)) t (some message_cell) api_version
        w₁).1 in
    let (kept, sized, still) =
      raw_set_cellsize-Shows env q ps c w₂ packed.few packed.cellsize_ge shows in
    let (q', w₃) = Raw.set_cellsize env q c w₂ in
    (
      q',
      convert_step env input (header_for t c ps) (encode_points ps) ps s (uncompressed q) w
            (decode_whole ps packed.fits) made
          ∙ forward_lem input (uncompressed q') s w₃ open_socket,
      kept,
      still ∙ stamped,
      sized,
    )

turn_lem :
    (env : Env) (input : Input) (t : ℕ) (c : Float32) (ps : List Point) (s : Proxy) (w : World)
    → env.malloc (sizeof_point * length ps) ≡ true
    → input.header ≡ some (encode_packetheader (header_for t c ps))
    → recvall input (sizeof_point * length ps) ≡ some (encode_points ps)
    → s.serving ≡ true
    → s.m_running ≡ true
    → s.m_socket ≡ true
    → decode_packetheader (encode_packetheader (header_for t c ps)) ≡ header_for t c ps
    → (server_turn env input s w).0
      ≡ (convert env input (header_for t c ps) (encode_points ps) s w).0
unfolding server_turn serve receive
turn_lem env input t c ps s w m header body serving running connected decoded = ground arith

-- A turn of the running server, over an open connection that carries the header and the data of
-- some points, delivers an object that shows these points, with the time stamp and the cell size
-- of the header, if the memory can be allocated, the values fit their types and the cell size is
-- not negative; the server goes on, with the connection if the acknowledgement was sent.
pub server_turn-delivers :
    (env : Env) (input : Input) (t : ℕ) (c : Float32) (ps : List Point) (s : Proxy) (w : World)
    → env.malloc (sizeof_point * length ps) ≡ true
    → IsPacked t c ps
    → sizeof_point * length ps < 2 ^ 32
    → input.header ≡ some (encode_packetheader (header_for t c ps))
    → recvall input (sizeof_point * length ps) ≡ some (encode_points ps)
    → s.serving ≡ true
    → s.m_running ≡ true
    → s.m_socket ≡ true
    → (q : Uncompressed) × ((server_turn env input s w).0
        ≡ record s { m_pc = some (uncompressed q); m_socket = input.sent })
      × Shows (uncompressed q) ps
      × (q.base.m_timestamp ≡ t)
      × (q.base.m_cellsize ≡ c)
unfolding server_turn serve receive
server_turn-delivers env input t c ps s w m packed small header body serving running connected =
    let decoded = decode-encode_packetheader t c ps packed.timestamp_lt packed.cellsize_lt small in
    let (q, made, shows, stamped, sized) = convert_lem env input t c ps s w m packed connected in
    (
      q,
      turn_lem env input t c ps s w m header body serving running connected decoded ∙ made,
      shows,
      stamped,
      sized,
    )
