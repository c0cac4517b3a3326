-- ===== src/Store/Models.antt =====
-- src/policy-server/store/models.go. A tag is text that the program prints, so it is bytes; the
-- other texts are only compared.
use cf_networking_release.Prelude.{String, Bytes, ℤ}

pub record Source : Type 0 where
  pub id : String
  pub tag : Bytes

pub record Ports : Type 0 where
  pub start : ℤ
  pub end : ℤ

pub record Destination : Type 0 where
  pub id : String
  pub tag : Bytes
  pub protocol : String
  pub port : ℤ
  pub ports : Ports

pub record Policy : Type 0 where
  pub source : Source
  pub destination : Destination

pub record Tag : Type 0 where
  pub id : String
  pub tag : Bytes
