-- ===== src/Proxy.antt =====
-- `cwipc_source_proxy_impl` (cwipc_util/src/cwipc_proxy.cpp): a server thread that receives point clouds
-- over a connection, and the calls of the consumer. A socket is open or closed; what the calls of the
-- operating system answer during one turn of the server's loop is the turn's input.
pub mod Delivery
pub mod Ending
pub mod Samples
use cwipc.Common.{
  ℕ, ◌/◌, Bool, true, false, not, ◌&&◌, Option, none, some, List, take, drop, ◌==◌, if◌then◌else◌,
  ltb, ◌^◌,
}
use cwipc.Common.Int.{pos}
use cwipc.Words.{le_value, to_int}
use cwipc.Float32.{Float32}
use cwipc.Logging.{level_error, level_warning, level_trace}
use cwipc.Point.{sizeof_point}
use cwipc.Point.Encoding.{decode_points}
use cwipc.World.{Env, M, pure, ◌>>=◌, ◌>>◌, log, Waits, returns, blocks}
use cwipc.Pointcloud.{Pointcloud}
use cwipc.Pointcloud.Virtual
use cwipc.Pointcloud.Create.{from_points, api_version}

pub record Proxy : Type 0 where
  pub m_listen_socket : Bool
  pub m_socket : Bool
  pub m_running : Bool
  pub m_pc : Option Pointcloud
  -- Whether the loop of the server thread goes on.
  pub serving : Bool

-- The constructor, for a socket that listens.
abbrev pub new_proxy : Proxy
new_proxy = record {
  m_listen_socket = true;
  m_socket = false;
  m_running = false;
  m_pc = none;
  serving = false;
}

abbrev pub start : Proxy → Proxy
start s = record s { m_running = true; serving = true }

-- The server thread ends its turn and its loop.
abbrev pub stop : Proxy → Proxy
stop s = record s { m_running = false; m_listen_socket = false; m_socket = false; serving = false }

abbrev pub free : Proxy → Proxy
free s = if s.m_running then stop s else s

abbrev pub eof : Proxy → Bool
eof s = not s.m_listen_socket && not s.m_socket

-- Without waiting.
abbrev pub available : Proxy → Bool
available s = elim s.m_pc [ none ↦ false | some pc ↦ true ]

-- The consumer waits while the server runs and has nothing.
unfoldable pub get : Proxy → Waits (Option Pointcloud × Proxy)
get s = elim s.m_pc [
  | some pc ↦ returns (some pc, record s { m_pc = none })
  | none ↦ if s.m_running then blocks else returns (none, s)
]

-- `struct cwipc_point_packetheader` (cwipc_util/include/cwipc_util/api.h), of 24 bytes.
pub record PacketHeader : Type 0 where
  pub magic : ℕ
  pub data_count : ℕ
  pub timestamp : ℕ
  pub cellsize : Float32
  pub unused : ℕ

-- `CWIPC_POINT_PACKETHEADER_MAGIC`.
abbrev pub packetheader_magic : ℕ
packetheader_magic = 0x2020_1016

unfoldable pub decode_packetheader : List ℕ → PacketHeader
decode_packetheader bytes = record {
  magic = le_value (take 4 bytes);
  data_count = le_value (take 4 (drop 4 bytes));
  timestamp = le_value (take 8 (drop 8 bytes));
  cellsize = le_value (take 4 (drop 16 bytes));
  unused = le_value (take 4 (drop 20 bytes));
}

-- The answers of `accept`, of `_recvall` for the header and for a number of bytes, and of `send`.
pub record Input : Type 0 where
  pub accepted : Bool
  pub header : Option (List ℕ)
  pub body : ℕ → Option (List ℕ)
  pub sent : Bool

-- The variable of the caller that an error message is stored in is the one at this address, which holds
-- NULL at the start of each turn.
abbrev pub message_cell : ℕ
message_cell = 0

pub clear_cell : M (Unit {0})
clear_cell w = (
  tt,
  record w {
    log = record w.log { cells = λ p. if p == message_cell then none else w.log.cells p };
  },
)

-- What follows the loop.
abbrev pub ended : Proxy → Proxy
ended s = record s { m_socket = false; m_running = false; serving = false }

close_connection : Proxy → Proxy
close_connection s = record s { m_socket = false }

free_undelivered : Option Pointcloud → M (Unit {0})
free_undelivered none = pure tt
free_undelivered (some pc) = do freed ← Virtual.free pc; pure tt

-- An undelivered point cloud is freed; a connection that does not take the acknowledgement is closed.
unfoldable pub forward : Input → Pointcloud → Proxy → M Proxy
unfolding free_undelivered close_connection
forward input pc s = do
  free_undelivered s.m_pc
  let s' : Proxy = record s { m_pc = some pc }
  pure (if input.sent then s' else close_connection s')

-- The points are copied out of the received bytes.
unfoldable pub convert : Env → Input → PacketHeader → List ℕ → Proxy → M Proxy
convert env input header points s = do
  clear_cell
  pc ←
      from_points env (decode_points (header.data_count / sizeof_point) points) header.data_count
        (to_int (header.data_count / sizeof_point)) header.timestamp (some message_cell) api_version
  elim pc [
    | none ↦ do log level_warning "cwipc_proxy" "cwipc_from_points: "; pure (ended s)
    | some q ↦ do q' ← Virtual.set_cellsize env q header.cellsize; forward input q' s
  ]

-- `_recvall`: the number of received bytes is an `int`, so that no 2 ^ 31 bytes or more are received.
abbrev pub recvall : Input → ℕ → Option (List ℕ)
recvall input size = if ltb size (2 ^ 31) then input.body size else none

unfoldable pub receive : Env → Input → PacketHeader → Proxy → M Proxy
unfolding close_connection
receive env input header s =
    if not (header.magic == packetheader_magic)
    then (do log level_error "cwipc_proxy" "invalid magic number in packet header"; pure (ended s))
    else if env.malloc header.data_count
    then elim (recvall input header.data_count) [
      | none ↦ pure (close_connection s)
      | some points ↦ convert env input header points s
    ]
    else (do log level_error "cwipc_proxy" "malloc failed"; pure (ended s))

-- With a connection.
unfoldable pub serve : Env → Input → Proxy → M Proxy
unfolding close_connection
serve env input s = elim input.header [
  | none ↦ pure (close_connection s)
  | some bytes ↦ receive env input (decode_packetheader bytes) s
]

-- One turn of the loop of `_server_main`.
unfoldable pub server_turn : Env → Input → Proxy → M Proxy
server_turn env input s =
    if not (s.serving && s.m_running)
    then pure (ended s)
    else if s.m_socket
    then serve env input s
    else (do
      log level_trace "cwipc_proxy" "waiting for connection..."
      if input.accepted
          then (do
            log level_trace "cwipc_proxy" "connection accepted"
            serve env input (record s { m_socket = true }))
          else pure (ended s))
