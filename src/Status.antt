-- ===== src/Status.antt =====
-- The `int` that an operation of sacio.c returns.
use linuse_fs.Base.{ℕ}

-- `pos n` is n, and `negsuc n` is -(n + 1).
pub data Status : Type 0 where
  pos : ℕ → Status
  negsuc : ℕ → Status

abbrev pub success : Status
success = pos 0

-- -1
abbrev pub failure : Status
failure = negsuc 0

-- -2, which stands for ENOTEMPTY
abbrev pub not_empty : Status
not_empty = negsuc 1
