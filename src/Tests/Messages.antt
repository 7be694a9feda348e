-- ===== src/Tests/Messages.antt =====
-- Examples for the messages: requests, the packages that carry them, and answers.
use linuse_fs.Base.{ℕ, ◌<◌, ◌≡◌, refl, true, none, some, List, [], ◌∷◌, ◌++◌, arith}
use linuse_fs.Memory.{Bytes, string_bytes}
use linuse_fs.Package.{Package}
use linuse_fs.Request.{Request}
use linuse_fs.Status.{Status}
use linuse_fs.Sacio.File.{Stat}
use linuse_fs.Protocol.Serialize.{serialize_write}
use linuse_fs.Protocol.Strings.{travel}
use linuse_fs.Protocol.Numbers.{travel-serialize_write, serialize_write_wide}
use linuse_fs.Wire.{send_package, receive_package}
use linuse_fs.Wire.Stream.{receive_package-send_package}
use linuse_fs.Server.Response.{stat_to_buffer}
use linuse_fs.Fuse.{fill_stat_from_buffer}
use linuse_fs.Fuse.Answers.{fill_stat_from_buffer-stat_to_buffer}
use linuse_fs.Sample.{unix}

-- "/ab" and "/a/b"
abbrev file_path : List ℕ
file_path = b'/' ∷ b'a' ∷ b'b' ∷ []

abbrev long_path : List ℕ
long_path = b'/' ∷ b'a' ∷ b'/' ∷ b'b' ∷ []

travel-serialize_write_example :
    travel ⦃p = unix 4⦄ (serialize_write ⦃p = unix 4⦄ 7 (string_bytes long_path) 4 4_096)
    ≡ some (Request.write 7 long_path 4_096)
travel-serialize_write_example =
    travel-serialize_write ⦃p = unix 4⦄ 7 long_path 4_096 refl (omega arith) (omega arith)

serialize_write_wide_example :
    serialize_write ⦃p = unix 8⦄ 7 (string_bytes long_path) 4 4_096 ≡ none
serialize_write_wide_example =
    serialize_write_wide ⦃p = unix 8⦄ 7 (string_bytes long_path) 4 4_096 refl (omega arith)

-- An answer with the status -2 and three bytes.
abbrev answer : Package
answer = record { message_id = Status.negsuc 1; size = 3; content = string_bytes file_path }

receive_package-send_package_example :
    (content : Bytes) × (receive_package (send_package answer ++ (5 ∷ 6 ∷ []))
      ≡ some (record { message_id = Status.negsuc 1; size = 3; content = content }, 5 ∷ 6 ∷ []))
    × ((i : ℕ) → i < 3 → content i ≡ string_bytes file_path i)
receive_package-send_package_example =
    receive_package-send_package answer (5 ∷ 6 ∷ []) (omega arith) (omega arith)

abbrev directory_stat : Stat
directory_stat = record {
  is_dir = true;
  ino = 3;
  size = 4_096;
  mtime = 1_574_035_300;
  ctime = 1_574_035_200;
}

fill_stat_from_buffer-stat_to_buffer_example :
    fill_stat_from_buffer (stat_to_buffer directory_stat (λ _. 0xee)) ≡ record {
      is_dir = true;
      nlink = 2;
      ino = 3;
      size = 4_096;
      mtime = 1_574_035_300;
      ctime = 1_574_035_200;
      atime = 1_574_035_300;
    }
fill_stat_from_buffer-stat_to_buffer_example =
    fill_stat_from_buffer-stat_to_buffer directory_stat (λ _. 0xee) (omega arith) (omega arith)
      (omega arith)
