-- ===== src/Windows/ErrorCode.antt =====
-- The error numbers of Windows that src/windows/*.c names.
use libusbp.Base.{ℕ}

abbrev pub file_not_found : ℕ
file_not_found = 2

abbrev pub access_denied : ℕ
access_denied = 5

abbrev pub not_enough_memory : ℕ
not_enough_memory = 8

abbrev pub outofmemory : ℕ
outofmemory = 14

abbrev pub gen_failure : ℕ
gen_failure = 31

abbrev pub sem_timeout : ℕ
sem_timeout = 121

abbrev pub operation_aborted : ℕ
operation_aborted = 995

abbrev pub insufficient_buffer : ℕ
insufficient_buffer = 122

abbrev pub no_more_items : ℕ
no_more_items = 259
