-- ===== src/Lib.antt =====
-- Verification of cwipc, the CWI point cloud library: capture, filtering, compression and rendering of
-- point clouds. A point cloud object (`cwipc_pointcloud`) is what the parts exchange: sources make them,
-- filters and the codec take and return them, sinks consume them.
--
-- Files:
--   Common            names, tests, lists and integers that the other modules share
--   Float32           `float` as its IEEE 754 bit pattern; comparisons, sign and minimum are exact
--   Words             `size_t` and `int` conversions, little-endian memory
--   Logging           cwipc_util/src/logging.cpp: level, destinations, error buffer
--   Point             `cwipc_point` and `cwipc_pcl_point` (cwipc_util/include/cwipc_util/api.h, api_pcl.h)
--   World             the state that the calls share: logging, allocation counters, deallocations
--   Metadata          `cwipc_metadata_impl` of cwipc_util/src/cwipc_util.cpp
--   Pointcloud        cwipc_util/src/cwipc_util.cpp: Base is `cwipc_impl`, Raw is
--                     `cwipc_uncompressed_impl`, Virtual the interface and `copy_packet`, Create the
--                     functions `cwipc_from_*` and `cwipc_dangling_allocations`, Files reading and
--                     writing, Heap the objects of a process and the calls on them
--   Filters           cwipc_util/src/cwipc_filters.cpp: Grid is downsampling, Outliers the removal of
--                     outliers
--   Codec             cwipc_codec/src/cwipc_codec.cpp: Single is `cwipc_encoder_impl` without threads,
--                     Threads its two threads and `close`, Parallel the multithreaded encoder, Group
--                     the encoder group, Decoding the decoder, Create the functions that make them
--   CloudCodec        cwipc_codec/cloud_codec_v2: Snake is the mapping of colours to an image
--                     (snake_grid_mapping.h), JpegIo the JPEG reader and writer (src/jpeg_io.cpp),
--                     ColorJpeg the colour coder (color_coding_jpeg.h), Frame the search for a frame, its
--                     header and its vectors (impl/point_cloud_codec_v2_impl.hpp)
--   Capturer          cwipc_util/src/cwipc_capturer.cpp: the registry of capturers, and the choice
--   Capture           the capturers of the cameras: Kinect is cwipc_kinect/src/K4ABaseCapture.hpp, RealSense
--                     is cwipc_realsense2/src/RS2BaseCapture.hpp; Playback is the capture of recorded
--                     frames (cwipc_kinect/src/K4APlaybackCamera.cpp, K4APlaybackCapture.cpp)
--   Config            configurations as JSON: Camera is `CwipcBaseCameraConfig` of
--                     cwipc_util/include/cwipc_util/internal/capturers.hpp, Kinect is
--                     cwipc_kinect/src/K4AConfig.cpp, RealSense cwipc_realsense2/src/RS2Config.cpp,
--                     Orbbec cwipc_orbbec/src/OrbbecConfig.cpp; each has its structures, Read, Write and
--                     Text (`from_file`, `from_string`, `to_string`)
--   Proxy             cwipc_util/src/cwipc_proxy.cpp: the server loop, and the calls of the consumer
--
-- Conventions. A method of an object is a function from the object (and the shared state) to the object
-- afterwards; a C function `cwipc_x` is `x`, `_set_cellsize` is `set_cellsize`. A NULL pointer is `none`. A
-- `char **` is a number and the variable at it is a cell of the logging state. Pointers and the functions
-- that free metadata are numbers. A caller's array has the size that is passed with it. Numbers inside
-- message texts and the time stamps in front of log lines are left out. PCL clouds are never changed after
-- they are made, so they are values.
--
-- Parameters: the success of `malloc` and PCL's distance (`Env`), PCL's voxel grid and octree (`Grid`),
-- PCL's statistical outlier removal (`Removal`), the PLY reader and writer, the codec's bit stream and
-- the room in a queue (`Codec`), the JPEG library (`Libjpeg`), PCL's header and entropy coder
-- (`BaseCodec`, `EntropyCoder`), the files and the JSON library (`Configs`, and `Json` for the
-- configurations of the cameras, whose documented round trips are `IsJson`). Loops are structural
-- recursions and counted loops; one loop of Capture.Playback has fuel, one more than the frames that are
-- left in its file, and each of its turns takes at least one of them.
--
-- Threads. An encoder with threads is modelled by the turns of its two loops, each from an element of its
-- queue to the next test of `m_alive`; an interleaving is a list of turns and calls. A capturer is
-- modelled by the steps of its control thread and of the one consumer that calls it, up to the next wait,
-- lock or test of `stopped`, with what the cameras answer as input; a list of events is an interleaving. A
-- turn of a waiting thread tests its condition again, whether it was notified or not, so that lost
-- notifications are not modelled, and neither are calls from a second consumer thread.
-- The server of the proxy is modelled by the turns of its loop; what the operating system answers is
-- their input.
--
-- Not modelled: arithmetic on floats, and so the cameras' geometry, the octree and its predicted frames;
-- the SDKs of the cameras, windows and sockets.
pub mod Common
pub mod CloudCodec
pub mod Float32
pub mod Words
pub mod Logging
pub mod Point
pub mod World
pub mod Metadata
pub mod Pointcloud
pub mod Filters
pub mod Codec
pub mod Capturer
pub mod Proxy
pub mod Capture
pub mod Config
