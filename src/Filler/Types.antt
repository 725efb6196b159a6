-- ===== src/Filler/Types.antt =====
-- What the filler reads of the chain's data: src/types/ship.ts and src/types/eosio.ts, the fields
-- that the modelled code uses. `V` is a payload: the bytes of an action or of a row, or what they
-- decode to.
use atomicassets_api.Prelude.{ℕ, String}
use atomicassets_api.Json.{Fields}

-- `ShipBlock`; `json` is the object with all its fields.
pub record Block : Type 0 where
  pub block_num : ℕ
  pub timestamp : String
  pub json : Fields

-- `EosioActionTrace`, with its `act`
pub record Trace (V : Type 0) : Type 0 where
  pub global_sequence : ℕ
  pub account : String
  pub name : String
  pub payload : V

-- `EosioTransaction`; `ref` is the identity of the object.
pub record Transaction : Type 0 where
  pub ref : ℕ
  pub id : String

-- `EosioContractRow`
pub record Row (V : Type 0) : Type 0 where
  pub code : String
  pub table : String
  pub scope : String
  pub value : V
