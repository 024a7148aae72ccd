-- ===== src/Proxy/Ending.antt =====
-- What ends the server of cwipc_util/src/cwipc_proxy.cpp.
use cwipc.World.{World}
use cwipc.Pointcloud.Create
use cwipc.Proxy.{Proxy}
