-- ===== src/Consumer.antt =====
-- src/consumer.rs: the handle of one durable consumer.
pub mod Receipts
pub mod Archives
pub mod Lifecycle
pub mod Claim
pub mod Poll
use litefan.Prelude.{ℕ, String}
use litefan.Error.{Error, consumer_deleted}
use litefan.Api.{Filter}
use litefan.Store.{LiteFan}

pub record Consumer : Type 0 where
  pub publish_signal : ℕ
  pub consumer_signal : ℕ
  pub fan : LiteFan
  pub id : ℕ
  pub name : String
  pub filter : Filter

abbrev pub deleted_error : Consumer → Error
deleted_error self = consumer_deleted self.name
