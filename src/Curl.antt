-- ===== src/Curl.antt =====
-- code/aws/curl: the handle container of the S3 client, and its requests.
pub mod Handles
pub mod Callbacks
pub mod Request
pub mod Options
pub mod Client
pub mod Global
pub mod Stats
