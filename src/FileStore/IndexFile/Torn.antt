-- ===== src/FileStore/IndexFile/Torn.antt =====
-- FileStore.h: an append to the index file that was cut off, and what `load_index` makes of it.
