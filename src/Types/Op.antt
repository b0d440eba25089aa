-- ===== src/Types/Op.antt =====
-- `DTOP_*` of libdthread/dt_reqmsg.h.
use dthread.Base.{ℕ}

abbrev pub none : ℕ
none = 0

abbrev pub create : ℕ
create = 1

abbrev pub created : ℕ
created = 2

abbrev pub start : ℕ
start = 3

abbrev pub started : ℕ
started = 4

abbrev pub detach : ℕ
detach = 5

abbrev pub detached : ℕ
detached = 6

abbrev pub cancel : ℕ
cancel = 7

abbrev pub canceled : ℕ
canceled = 8

abbrev pub join : ℕ
join = 9

abbrev pub joined : ℕ
joined = 10

abbrev pub joinwait : ℕ
joinwait = 11

abbrev pub retclean : ℕ
retclean = 12

abbrev pub terminated : ℕ
terminated = 13

abbrev pub app0_ret : ℕ
app0_ret = 14

abbrev pub bcastshutdown : ℕ
bcastshutdown = 15
