-- ===== src/Shm/Break/Realloc.antt =====
-- `break_realloc` of libdthread/dt_shmops.c.
