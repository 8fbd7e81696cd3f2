-- ===== src/External/PemLib.antt =====
-- The third-party crates that the texts of keys need.
use rust_osshkeys.External.Base64s.{Base64s}
use rust_osshkeys.External.OsshLib.{OsshLib}
use rust_osshkeys.External.PKeys.{PKeys}
use rust_osshkeys.External.Pems.{Pems}

pub record PemLib : Type 1 where
  pub ossh : OsshLib
  pub b64 : Base64s
  pub pk : PKeys ossh.keys
  pub pems : Pems ossh.keys pk b64
