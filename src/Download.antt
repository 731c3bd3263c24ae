-- ===== src/Download.antt =====
-- code/aws/downloader.h and code/aws/downloader.cc: ranges of objects in S3, downloaded by a pool of
-- threads, and the connections that are opened ahead of them.
pub mod Range
pub mod Ranges
pub mod Init
pub mod Fetch
pub mod Answer
pub mod Downloader
pub mod Pool
