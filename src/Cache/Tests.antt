-- ===== src/Cache/Tests.antt =====
-- A run of the cache.
