-- ===== src/Proxy/Samples.antt =====
-- A concrete connection, and the theorems on the server at it.
use cwipc.Common.{◌≡◌, refl, true, false, some, [], arith}
use cwipc.World.{fresh_world}
use cwipc.Point.Encoding.{encode_points}
use cwipc.Pointcloud.{Uncompressed, uncompressed}
use cwipc.Pointcloud.View.{Shows}
use cwipc.Pointcloud.Packet.{IsPacked}
use cwipc.Pointcloud.Samples.{sample_env, two_points}
use cwipc.Proxy.{Proxy, Input, new_proxy, start, server_turn, PacketHeader}
use cwipc.Proxy.Delivery.{header_for, encode_packetheader, server_turn-delivers}

-- The server has accepted a connection.
abbrev connected : Proxy
connected = record (start new_proxy) { m_socket = true }

-- The sender sends two points, and goes away before it reads the acknowledgement.
abbrev two_points_sent : Input
two_points_sent = record {
  accepted = true;
  header = some (encode_packetheader (header_for 1000 0 two_points));
  body = λ n. some (encode_points two_points);
  sent = false;
}

two_points-IsPacked : IsPacked 1000 0 two_points
two_points-IsPacked = ground arith

server_turn-delivers_example :
    (q : Uncompressed) × ((server_turn sample_env two_points_sent connected fresh_world).0
      ≡ record connected { m_pc = some (uncompressed q); m_socket = false })
    × Shows (uncompressed q) two_points
    × (q.base.m_timestamp ≡ 1000)
    × (q.base.m_cellsize ≡ 0)
server_turn-delivers_example =
    server_turn-delivers sample_env two_points_sent 1000 0 two_points connected fresh_world refl
      two_points-IsPacked (omega arith) refl refl refl refl refl

abbrev partial_header : PacketHeader
partial_header = record (header_for 1000 0 two_points) { data_count = 20 }

abbrev partial_sent : Input
partial_sent = record {
  accepted = true;
  header = some (encode_packetheader partial_header);
  body = λ n. some [];
  sent = true;
}
