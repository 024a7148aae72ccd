-- ===== src/CloudCodec.antt =====
-- The parts of the cloud codec under cwipc_codec/cloud_codec_v2 that lay out the compressed data.
mod Bytes
pub mod Snake
pub mod JpegIo
pub mod ColorJpeg
pub mod Frame
pub mod Samples
