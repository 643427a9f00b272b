-- ===== src/Vardiff.antt =====
-- vardiff/: the ring buffer of share intervals and the retargeting of a client's difficulty.
pub mod RingBuffer
pub mod Retarget
