-- ===== src/Manager/Counts.antt =====
-- Every handler of libdthread/dt_mgrthread.c keeps the counters `threads_alloc` and `ltab_alloc`
-- equal to the numbers of slots in use: one child for each table.
pub mod Global
pub mod Local
pub mod Requests
