-- ===== src/Filler/Receiver/Handle.antt =====
-- `handleActionTrace`, `handleContractRow`, `handleAbiUpdate`, `handleCodeUpdate` and the
-- preparation of the payloads, of src/filler/receiver.ts.
use atomicassets_api.Prelude.{ℕ, not, ◌&&◌, String, str_eq, Option, none, some, List, if◌then◌else◌}
use atomicassets_api.Exec.{Exec, Outcome, ok, err, thrown, pure, raise, ◌>>=◌, ◌>>◌}
use atomicassets_api.Filler.Types.{Block, Trace, Transaction, Row}
use atomicassets_api.Filler.Modules.{
  FilterModule, check_trace, check_delta, check_raw_trace, check_raw_delta,
}
use atomicassets_api.Filler.Processor.{
  action_trace_needed, contract_row_needed, process_action_trace, process_contract_row,
}
use atomicassets_api.Filler.Receiver.{
  Version, undefined, at_block, AbiCache, AbiSource, Payload, estimated, decoded, hex, Receiver,
  on_database,
}
use atomicassets_api.Filler.Receiver.Abi.{
  version_eq, store_abi, fetch_contract_abi, fetch_contract_abi_obj,
}

module _ {D A V : Type 0} (source : AbiSource D A V)
    (modules : List (FilterModule (Payload V))) where
  -- The estimation is used if it was made with the ABI of this block.
  abbrev pub fresh : Version → Payload V → Option V
  fresh v (estimated bytes (some json) w) = if version_eq w v then some json else none
  fresh v _ = none

  abbrev pub bytes_of : Payload V → String
  bytes_of (estimated bytes json v) = bytes
  bytes_of (decoded v) = ""
  bytes_of (hex text) = text

  -- `typeof data === 'string' ? data : binToHex(data)`. What the preparation leaves is an object with
  -- neither an iterator nor a key `0`, of which `binToHex` gives the empty text.
  abbrev pub trace_hex : Payload V → String
  trace_hex (estimated bytes json v) = ""
  trace_hex (decoded v) = ""
  trace_hex (hex text) = text

  -- Decoding in sync mode, with the type that the ABI gives: a type that is not there leaves the
  -- payload as it is, and a failure of the decoder is thrown on.
  abbrev pub decode_sync : A → Option String → Payload V → Exec (Receiver D A V) (Payload V)
  decode_sync abi none payload = pure payload
  decode_sync abi (some type) payload = elim (source.decode type (bytes_of payload) abi) [
    | none ↦ raise (thrown "Failed to deserialize in sync mode")
    | some v ↦ pure (decoded v)
  ]

  -- The ABI object is fetched, and the type is looked up in another fetch.
  unfoldable pub decode_with_abi :
      String → ℕ → (A → Option String) → Payload V → Exec (Receiver D A V) (Payload V)
  decode_with_abi account n type_of payload = fetch_contract_abi_obj source account n >>= λ abi.
      fetch_contract_abi_obj source account n >>= λ typed. decode_sync abi (type_of typed) payload

  unfoldable pub resolve :
      String → ℕ → (A → Option String) → Payload V → Exec (Receiver D A V) (Payload V)
  unfolding decode_with_abi
  resolve account n type_of payload = fetch_contract_abi source account n >>= λ cache.
      elim (fresh cache.version payload) [
        | none ↦ decode_with_abi account n type_of payload
        | some json ↦ pure (decoded json)
      ]

  -- `catch` that only logs
  abbrev pub ignoring : Exec (Receiver D A V) (Unit {0}) → Exec (Receiver D A V) (Unit {0})
  ignoring m r = (ok tt, (m r).1)

  unfoldable pub handle_abi_update : Block → Payload V → Exec (Receiver D A V) (Unit {0})
  unfolding store_abi
  handle_abi_update block (decoded v) = elim (source.deserialize_abi (source.set_abi_bytes v)) [
    | none ↦ pure tt
    | some abi ↦ do
      store_abi (source.set_abi_account v)
          (record { abi = some abi; version = at_block block.block_num })
      ignoring (
          on_database (source.insert_abi (source.set_abi_account v) (source.set_abi_bytes v) block))
  ]
  handle_abi_update block _ = pure tt

  unfoldable pub handle_code_update : Block → Payload V → Exec (Receiver D A V) (Unit {0})
  handle_code_update block (decoded v) =
      ignoring (on_database (source.insert_code (some (source.set_code_account v)) block))
  handle_code_update block (estimated bytes json v) =
      ignoring (on_database (source.insert_code none block))
  handle_code_update block (hex text) = pure tt

  -- The processor queues; the rest of the receiver is as it was.
  abbrev pub queue_trace :
      Block → Transaction → Trace (Payload V) → Exec (Receiver D A V) (Unit {0})
  queue_trace block tx t r = (
    (process_action_trace modules block tx t r.processor).0,
    record r { processor = (process_action_trace modules block tx t r.processor).1 },
  )

  abbrev pub queue_row : Block → Row (Payload V) → Exec (Receiver D A V) (Unit {0})
  queue_row block d r = (
    (process_contract_row modules block d r.processor).0,
    record r { processor = (process_contract_row modules block d r.processor).1 },
  )

  abbrev pub dispatch_trace :
      Block → Transaction → Trace (Payload V) → Exec (Receiver D A V) (Unit {0})
  dispatch_trace block tx t =
      if str_eq t.account "eosio" && str_eq t.name "setcode"
      then handle_code_update block t.payload
      else if str_eq t.account "eosio" && str_eq t.name "setabi"
      then handle_abi_update block t.payload
      else queue_trace block tx t

  unfoldable pub handle_action_trace :
      Block → Transaction × Trace (Payload V) → Exec (Receiver D A V) (Unit {0})
  unfolding handle_abi_update handle_code_update resolve
  handle_action_trace block (tx, t) r =
      let needed = action_trace_needed r.processor t.account t.name in
      if needed.0 && not (check_trace modules block tx t)
      then (ok tt, r)
      else if needed.1
      then (resolve t.account block.block_num (λ abi. source.action_type abi t.account t.name)
              t.payload
            >>= λ payload. dispatch_trace block tx (record t { payload = payload }))
          r
      else if needed.0
      then queue_trace block tx (record t { payload = hex (trace_hex t.payload) }) r
      else (ok tt, r)

  unfoldable pub handle_contract_row : Block → Row (Payload V) → Exec (Receiver D A V) (Unit {0})
  unfolding resolve
  handle_contract_row block d r =
      let needed = contract_row_needed r.processor d.code d.table in
      if needed.0 && not (check_delta modules block d)
      then (ok tt, r)
      else if needed.1
      then (resolve d.code block.block_num (λ abi. source.table_type abi d.code d.table) d.value
            >>= λ value. queue_row block (record d { value = value }))
          r
      else if needed.0
      then queue_row block (record d { value = hex (bytes_of d.value) }) r
      else (ok tt, r)

  -- What the preparation makes of a payload with the type in an ABI; any failure is caught.
  abbrev prepared : Outcome (AbiCache A) → (A → Option String) → String → Payload V
  prepared (err e) type_of bytes = estimated bytes none undefined
  prepared (ok cache) type_of bytes = elim cache.abi [
    | none ↦ estimated bytes none undefined
    | some abi ↦ elim (type_of abi) [
      | none ↦ estimated bytes none undefined
      | some type ↦ elim (source.decode type bytes abi) [
        | none ↦ estimated bytes none undefined
        | some v ↦ estimated bytes (some v) cache.version
      ]
    ]
  ]

  -- One round of `prepareActionTraces`, for a trace with its bytes.
  unfoldable pub prepare_action_trace :
      ℕ → Transaction → Trace (Payload V) → Exec (Receiver D A V) (Trace (Payload V))
  prepare_action_trace n tx t r =
      let plain = record t { payload = estimated (bytes_of t.payload) none undefined } in
      if (action_trace_needed r.processor t.account t.name).1 && check_raw_trace modules n tx plain
      then (let cache = fetch_contract_abi source t.account n r in
          (
            ok (record t {
              payload =
                  prepared cache.0 (λ abi. source.action_type abi t.account t.name)
                    (bytes_of t.payload);
            }),
            cache.1,
          ))
      else (ok plain, r)

  -- One round of `prepareContractRows`.
  unfoldable pub prepare_contract_row :
      ℕ → Row (Payload V) → Exec (Receiver D A V) (Row (Payload V))
  prepare_contract_row n d r =
      let plain = record d { value = estimated (bytes_of d.value) none undefined } in
      if (contract_row_needed r.processor d.code d.table).1 && check_raw_delta modules n plain
      then (let cache = fetch_contract_abi source d.code n r in
          (
            ok (record d {
              value =
                  prepared cache.0 (λ abi. source.table_type abi d.code d.table) (bytes_of d.value);
            }),
            cache.1,
          ))
      else (ok plain, r)
