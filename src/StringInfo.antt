-- ===== src/StringInfo.antt =====
-- The limit of PostgreSQL's strings, as its documentation of memory allocation and `enlargeStringInfo`
-- give it.
use cstore_fdw.Prelude.{ℕ, ◌+◌, ◌-◌, ◌^◌, List, leb, length}
use cstore_fdw.Result.{Result, string_too_large, fail_if}

-- `MaxAllocSize`
abbrev pub max_alloc_size : ℕ
max_alloc_size = 2 ^ 30 - 1

-- `enlargeStringInfo` refuses a string that, with the bytes needed and a NUL behind them, is longer
-- than `MaxAllocSize`.
abbrev pub enlarge_string_info : List ℕ → ℕ → Result (Unit {0})
enlarge_string_info buffer needed =
    fail_if (leb max_alloc_size (length buffer + needed)) string_too_large
