-- ===== src/Jobs.antt =====
-- jobs/: the jobs that the pool hands out and the shares that come back.
pub mod Template
pub mod Job
pub mod Share
pub mod Manager
pub mod Submit
pub mod Params
pub mod Process
