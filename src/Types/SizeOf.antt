-- ===== src/Types/SizeOf.antt =====
-- `sizeof(struct dtmsg_*)` of libdthread/dt_reqmsg.h on x86-64 Linux, where a `pthread_attr_t`
-- takes 56 bytes and a `dthread_argret_t` 72.
use dthread.Base.{ℕ}

abbrev pub header : ℕ
header = 8

abbrev pub create : ℕ
create = 144

abbrev pub created : ℕ
created = 20

abbrev pub start : ℕ
start = 72

abbrev pub started : ℕ
started = 12

abbrev pub detach : ℕ
detach = 16

abbrev pub detached : ℕ
detached = 12

abbrev pub cancel : ℕ
cancel = 16

abbrev pub canceled : ℕ
canceled = 12

abbrev pub join : ℕ
join = 16

abbrev pub joined : ℕ
joined = 88

abbrev pub terminated : ℕ
terminated = 20
