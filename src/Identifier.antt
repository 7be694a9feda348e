-- ===== src/Identifier.antt =====
-- `t_identifier_message` of mtserver/src/serialization.h, with the values of the enumeration.
use linuse_fs.Base.{ℕ}

abbrev pub sac : ℕ
sac = 0

abbrev pub open_file : ℕ
open_file = 1

abbrev pub close : ℕ
close = 2

abbrev pub write : ℕ
write = 3

abbrev pub read : ℕ
read = 4

abbrev pub remove : ℕ
remove = 5

abbrev pub mkdir : ℕ
mkdir = 6

abbrev pub rmdir : ℕ
rmdir = 7

abbrev pub stat : ℕ
stat = 8

abbrev pub readdir : ℕ
readdir = 9

abbrev pub rename : ℕ
rename = 10

abbrev pub truncate : ℕ
truncate = 11
