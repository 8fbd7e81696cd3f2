-- ===== src/External/Regexes.antt =====
-- `regex`, as far as the crate matches the headers of a PEM text: the first two groups of a match.
use rust_osshkeys.Prelude.{Bytes, Option}

pub record Regexes : Type 0 where
  -- `^([0-9]+),(ENCRYPTED|MIC-ONLY|MIC-CLEAR|CRL)`
  pub proc_type : Bytes → Option (Bytes × Bytes)
  -- `^(DES-CBC|DES-EDE3-CBC|AES-128-CBC|AES-192-CBC|AES-256-CBC),([0-9a-fA-F]+)$`
  pub dek_info : Bytes → Option (Bytes × Bytes)
