-- ===== src/Tar.antt =====
-- What archive/tar and compress/gzip are given: the entries of an archive, in their order.
use backup_git_repos.Base.{Text, ℕ, Option}

-- The attributes that `fs.FileInfo` carries beside the kind of the file.
pub record FileInfo : Type 0 where
  pub mode : ℕ
  pub mod_time : ℕ
  -- The zero time is none.
  pub access_time : Option ℕ
  pub change_time : Option ℕ
  pub uid : ℕ
  pub gid : ℕ
  pub uname : Text
  pub gname : Text

pub data TypeFlag : Type 0 where
  reg_type dir_type symlink_type : TypeFlag

-- `tar.Header`
pub record Header : Type 0 where
  pub type_flag : TypeFlag
  pub name : Text
  pub link_name : Text
  pub info : FileInfo

-- A header and the bytes that follow it.
pub record TarEntry : Type 0 where
  pub header : Header
  pub content : Text
