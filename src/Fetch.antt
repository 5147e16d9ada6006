-- ===== src/Fetch.antt =====
-- fetch (polyfill/fetch.c): its data, and the texts that it handles. A promise is known by its number.
pub mod Header
pub mod Transfer
pub mod Request
pub mod Response
pub mod Pending
mod Tests
use cqjs.Prelude.{ℕ, Bool, Option, List, Bytes}

pub record HeaderPair : Type 0 where
  pub key : Bytes
  pub value : Bytes

-- A fetch that is not finished or not delivered; a pointer that may be NULL is an option.
pub record FetchEntry : Type 0 where
  pub url : Bytes
  pub method : Bytes
  pub body : Option Bytes
  pub headers : List HeaderPair
  pub promise : ℕ
  pub completed : Bool
  pub is_error : Bool
  pub status_code : ℕ
  pub status_text : Option Bytes
  pub response_body : Option Bytes
  pub response_headers : List HeaderPair
  pub error_msg : Option Bytes
