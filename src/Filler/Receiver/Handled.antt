-- ===== src/Filler/Receiver/Handled.antt =====
-- What the handling and the preparation of traces and rows leave alone in the receiver.
use atomicassets_api.Prelude.{ℕ, not, ◌&&◌, refl, String, Option, none, some, List, if◌then◌else◌}
use atomicassets_api.Exec.{Exec, ok, abi_not_found, pure, raise, ◌>>=◌}
use atomicassets_api.Filler.Types.{Block, Trace, Transaction, Row}
use atomicassets_api.Filler.Modules.{FilterModule, check_trace, check_delta}
use atomicassets_api.Filler.Processor.{action_trace_needed, contract_row_needed}
use atomicassets_api.Filler.Receiver.{
  AbiSource, AbiCache, Version, Payload, estimated, decoded, hex, Receiver,
}
use atomicassets_api.Filler.Receiver.Abi.{
  store_abi, request_abi, or_request, keep_newer, load_abi, found_at, abi_of, fetch_contract_abi,
  fetch_contract_abi_obj,
}
use atomicassets_api.Filler.Receiver.Handle.{
  fresh, bytes_of, trace_hex, decode_sync, decode_with_abi, resolve, ignoring, queue_trace,
  queue_row, dispatch_trace, handle_abi_update, handle_code_update, handle_action_trace,
  handle_contract_row, prepare_action_trace, prepare_contract_row,
}
use atomicassets_api.Filler.Receiver.Frame.{
  Same-refl, Same-if, Keeps, Keeps-pure, Keeps-database, Keeps-if, Keeps-option, Keeps-bind,
  Keeps-then,
}
use atomicassets_api.Filler.Receiver.Queueing.{
  process_action_trace_state, process_contract_row_state,
}

module _ {D A V : Type 0} (source : AbiSource D A V)
    (modules : List (FilterModule (Payload V))) where
  Keeps-store_abi : (k : String) (c : AbiCache A) → Keeps {D = D} {V = V} (store_abi k c)
  unfolding store_abi
  Keeps-store_abi k c = record {
    at = λ r. record {
      current = refl;
      irreversible = refl;
      committed = refl;
      collected = refl;
      transaction = refl;
      stopped = refl;
      state = refl;
    };
  }

  Keeps-request_abi : (k : String) (n : ℕ) → Keeps (request_abi source k n)
  unfolding request_abi
  Keeps-request_abi k n = Keeps-bind _ _ (Keeps-database (source.fetch_next_abi k n)) (elim [
    | some row ↦ Keeps-pure _
    | none ↦ record { at = λ r. (Keeps-database (source.get_abi k)).at r }
  ])

  Keeps-or_request :
      (k : String) (n : ℕ) (found : Option A × Version) → Keeps (or_request source k n found)
  unfolding or_request
  Keeps-or_request k n (some abi, v) = Keeps-pure _
  Keeps-or_request k n (none, v) = Keeps-request_abi k n

  Keeps-keep_newer :
      (k : String) (found : Option A × Version) → Keeps {V = V} (keep_newer source k found)
  unfolding keep_newer
  Keeps-keep_newer k found = record {
    at = λ r. Same-if r _ _ _ ((Keeps-store_abi k _).at r) (Same-refl r);
  }

  Keeps-load_abi : (k : String) (n : ℕ) → Keeps (load_abi source k n)
  unfolding load_abi
  Keeps-load_abi k n = Keeps-bind _ _ (Keeps-database (source.fetch_abi k n)) λ raw.
      Keeps-bind (or_request source k n (found_at source raw)) (keep_newer source k)
        (Keeps-or_request k n (found_at source raw)) (Keeps-keep_newer k)

  Keeps-fetch_contract_abi : (k : String) (n : ℕ) → Keeps (fetch_contract_abi source k n)
  unfolding fetch_contract_abi
  Keeps-fetch_contract_abi k n = record {
    at = λ r. Same-if r _ _ _ (Same-refl r) ((Keeps-load_abi k n).at r);
  }

  Keeps-abi_of : (c : AbiCache A) → Keeps {V = V} (abi_of source c)
  unfolding abi_of
  Keeps-abi_of c =
      Keeps-option c.abi (raise abi_not_found) pure (record { at = λ r. Same-refl r }) Keeps-pure

  Keeps-fetch_contract_abi_obj : (k : String) (n : ℕ) → Keeps (fetch_contract_abi_obj source k n)
  unfolding fetch_contract_abi_obj
  Keeps-fetch_contract_abi_obj k n =
      Keeps-bind (fetch_contract_abi source k n) (abi_of source) (Keeps-fetch_contract_abi k n)
        Keeps-abi_of

  Keeps-decode_sync :
      (abi : A) (type : Option String) (p : Payload V)
      → Keeps (decode_sync source modules abi type p)
  Keeps-decode_sync abi none p = Keeps-pure p
  Keeps-decode_sync abi (some type) p =
      Keeps-option (source.decode type (bytes_of source modules p) abi) _ _
        (record { at = λ r. Same-refl r }) (λ v. Keeps-pure (decoded v))

  Keeps-decode_with_abi :
      (k : String) (n : ℕ) (type_of : A → Option String) (p : Payload V)
      → Keeps (decode_with_abi source modules k n type_of p)
  unfolding decode_with_abi
  Keeps-decode_with_abi k n type_of p =
      Keeps-bind (fetch_contract_abi_obj source k n) _ (Keeps-fetch_contract_abi_obj k n) λ abi.
        Keeps-bind (fetch_contract_abi_obj source k n) _ (Keeps-fetch_contract_abi_obj k n)
          λ typed. Keeps-decode_sync abi (type_of typed) p

  Keeps-resolve :
      (k : String) (n : ℕ) (type_of : A → Option String) (p : Payload V)
      → Keeps (resolve source modules k n type_of p)
  unfolding resolve
  Keeps-resolve k n type_of p =
      Keeps-bind (fetch_contract_abi source k n) _ (Keeps-fetch_contract_abi k n) λ cache.
        Keeps-option (fresh source modules cache.version p)
          (decode_with_abi source modules k n type_of p) (λ json. pure (decoded json))
          (Keeps-decode_with_abi k n type_of p) (λ json. Keeps-pure (decoded json))

  Keeps-ignoring :
      (m : Exec (Receiver D A V) (Unit {0})) → Keeps m → Keeps (ignoring source modules m)
  Keeps-ignoring m h = record { at = λ r. h.at r }

  Keeps-handle_abi_update :
      (b : Block) (p : Payload V) → Keeps (handle_abi_update source modules b p)
  unfolding handle_abi_update
  Keeps-handle_abi_update b (decoded v) =
      Keeps-option (source.deserialize_abi (source.set_abi_bytes v)) _ _ (Keeps-pure tt) λ abi.
        Keeps-then _ _ (Keeps-store_abi _ _) (
          Keeps-ignoring _ (
            Keeps-database
              (source.insert_abi (source.set_abi_account v) (source.set_abi_bytes v) b)))
  Keeps-handle_abi_update b (estimated bytes json v) = Keeps-pure tt
  Keeps-handle_abi_update b (hex text) = Keeps-pure tt

  Keeps-handle_code_update :
      (b : Block) (p : Payload V) → Keeps (handle_code_update source modules b p)
  unfolding handle_code_update
  Keeps-handle_code_update b (decoded v) =
      Keeps-ignoring _ (Keeps-database (source.insert_code (some (source.set_code_account v)) b))
  Keeps-handle_code_update b (estimated bytes json v) =
      Keeps-ignoring _ (Keeps-database (source.insert_code none b))
  Keeps-handle_code_update b (hex text) = Keeps-pure tt

  Keeps-queue_trace :
      (b : Block) (tx : Transaction) (t : Trace (Payload V))
      → Keeps (queue_trace source modules b tx t)
  Keeps-queue_trace b tx t = record {
    at = λ r. record {
      current = refl;
      irreversible = refl;
      committed = refl;
      collected = refl;
      transaction = refl;
      stopped = refl;
      state = process_action_trace_state modules b tx t r.processor;
    };
  }

  Keeps-queue_row : (b : Block) (d : Row (Payload V)) → Keeps (queue_row source modules b d)
  Keeps-queue_row b d = record {
    at = λ r. record {
      current = refl;
      irreversible = refl;
      committed = refl;
      collected = refl;
      transaction = refl;
      stopped = refl;
      state = process_contract_row_state modules b d r.processor;
    };
  }

  Keeps-dispatch_trace :
      (b : Block) (tx : Transaction) (t : Trace (Payload V))
      → Keeps (dispatch_trace source modules b tx t)
  Keeps-dispatch_trace b tx t =
      Keeps-if _ _ _ (Keeps-handle_code_update b t.payload)
        (Keeps-if _ _ _ (Keeps-handle_abi_update b t.payload) (Keeps-queue_trace b tx t))

  pub Keeps-handle_action_trace :
      (b : Block) (x : Transaction × Trace (Payload V))
      → Keeps (handle_action_trace source modules b x)
  unfolding handle_action_trace
  Keeps-handle_action_trace b (tx, t) = record {
    at = λ r.
        let needed = action_trace_needed r.processor t.account t.name in
        let plain =
          queue_trace source modules b tx
            (record t { payload = hex (trace_hex source modules t.payload) }) in
        let typed =
          resolve source modules t.account b.block_num
            (λ abi. source.action_type abi t.account t.name) t.payload
          >>= λ p. dispatch_trace source modules b tx (record t { payload = p }) in
        Same-if r (needed.0 && not (check_trace modules b tx t)) (ok tt, r)
          (if needed.1 then typed r else if needed.0 then plain r else (ok tt, r)) (Same-refl r)
          (Same-if r needed.1 (typed r) (if needed.0 then plain r else (ok tt, r))
            ((Keeps-bind _ _ (Keeps-resolve _ _ _ _)
                (λ p. Keeps-dispatch_trace b tx (record t { payload = p }))).at
              r)
            (Same-if r needed.0 (plain r) (ok tt, r) ((Keeps-queue_trace b tx _).at r)
              (Same-refl r)));
  }

  pub Keeps-handle_contract_row :
      (b : Block) (d : Row (Payload V)) → Keeps (handle_contract_row source modules b d)
  unfolding handle_contract_row
  Keeps-handle_contract_row b d = record {
    at = λ r.
        let needed = contract_row_needed r.processor d.code d.table in
        let plain =
          queue_row source modules b (record d { value = hex (bytes_of source modules d.value) }) in
        let typed =
          resolve source modules d.code b.block_num (λ abi. source.table_type abi d.code d.table)
            d.value
          >>= λ v. queue_row source modules b (record d { value = v }) in
        Same-if r (needed.0 && not (check_delta modules b d)) (ok tt, r)
          (if needed.1 then typed r else if needed.0 then plain r else (ok tt, r)) (Same-refl r)
          (Same-if r needed.1 (typed r) (if needed.0 then plain r else (ok tt, r))
            ((Keeps-bind _ _ (Keeps-resolve _ _ _ _)
                (λ v. Keeps-queue_row b (record d { value = v }))).at
              r)
            (Same-if r needed.0 (plain r) (ok tt, r) ((Keeps-queue_row b _).at r) (Same-refl r)));
  }

  pub Keeps-prepare_action_trace :
      (n : ℕ) (tx : Transaction) (t : Trace (Payload V))
      → Keeps (prepare_action_trace source modules n tx t)
  unfolding prepare_action_trace
  Keeps-prepare_action_trace n tx t = record {
    at = λ r. Same-if r _ _ _ ((Keeps-fetch_contract_abi t.account n).at r) (Same-refl r);
  }

  pub Keeps-prepare_contract_row :
      (n : ℕ) (d : Row (Payload V)) → Keeps (prepare_contract_row source modules n d)
  unfolding prepare_contract_row
  Keeps-prepare_contract_row n d = record {
    at = λ r. Same-if r _ _ _ ((Keeps-fetch_contract_abi d.code n).at r) (Same-refl r);
  }
