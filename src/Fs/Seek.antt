-- ===== src/Fs/Seek.antt =====
-- Seeking moves the position of a file and keeps the reference counts exact.
