-- ===== src/Events.antt =====
-- src/events.ts: the changes and batches that listeners are given.
use newtondb.Errors.{PrimaryKey}
use newtondb.Json.{Document}
use newtondb.Prelude.{ℕ, Option, List}
use newtondb.Text.{Text}

pub data ChangeOperation : Type 0 where
  delete insert update : ChangeOperation

pub record Change : Type 0 where
  pub after : Option Document
  pub before : Option Document
  pub collection : Text
  pub operation : ChangeOperation
  pub primary_key : PrimaryKey

pub record ChangeBatch : Type 0 where
  pub changes : List Change
  pub database_id : Text
  pub revision : ℕ
  pub transaction_id : Text
