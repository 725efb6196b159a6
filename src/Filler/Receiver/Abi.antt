-- ===== src/Filler/Receiver/Abi.antt =====
-- `fetchContractAbi` of src/filler/receiver.ts and its users.
use atomicassets_api.Prelude.{
  ℕ, Bool, true, false, String, str_eq, Option, none, some, List, [], ◌∷◌, leb, ◌==◌, if◌then◌else◌,
}
use atomicassets_api.Exec.{Exec, Outcome, ok, err, abi_not_found, pure, raise, ◌>>=◌}
use atomicassets_api.Filler.Receiver.{
  Version, undefined, before, at_block, AbiCache, AbiSource, Receiver, on_database,
}

-- `<=` on block numbers, of which one may be `undefined` or -1
unfoldable pub version_le : Version → Version → Bool
version_le undefined w = false
version_le before undefined = false
version_le before _ = true
version_le (at_block a) (at_block b) = leb a b
version_le (at_block a) _ = false

-- `===`
unfoldable pub version_eq : Version → Version → Bool
version_eq undefined undefined = true
version_eq before before = true
version_eq (at_block a) (at_block b) = a == b
version_eq _ _ = false

module _ {A : Type 0} where
  unfoldable pub cached_abi : String → List (String × AbiCache A) → Option (AbiCache A)
  cached_abi k [] = none
  cached_abi k ((j, c) ∷ l) = if str_eq j k then some c else cached_abi k l

module _ {D A V : Type 0} where
  unfoldable pub store_abi : String → AbiCache A → Exec (Receiver D A V) (Unit {0})
  store_abi k c r = (ok tt, record r { abis = (k, c) ∷ r.abis })

module _ {D A V : Type 0} (source : AbiSource D A V) where
  -- The row of the table, if it deserializes.
  abbrev pub found_at : Option (String × ℕ) → Option A × Version
  found_at none = (none, undefined)
  found_at (some (raw, n)) = elim (source.deserialize_abi raw) [
    | none ↦ (none, undefined)
    | some abi ↦ (some abi, at_block n)
  ]

  abbrev found_next : String × ℕ → Option A × Version
  found_next (raw, n) = elim (source.deserialize_abi raw) [
    | none ↦ (none, undefined)
    | some abi ↦ (some abi, before)
  ]

  -- `rpc.get_abi`, whose failure is caught
  abbrev from_node : Outcome A → Option A × Version
  from_node (ok abi) = (some abi, before)
  from_node (err e) = (none, undefined)

  -- Where the first query gave no ABI: the next row, or the node.
  unfoldable pub request_abi : String → ℕ → Exec (Receiver D A V) (Option A × Version)
  request_abi contract n = do
    raw ← on_database (source.fetch_next_abi contract n)
    elim raw [
      | some row ↦ pure (found_next row)
      | none ↦ λ r. (
        ok (from_node (source.get_abi contract r.world.database).0),
        (on_database (source.get_abi contract) r).1,
      )
    ]

  abbrev pub newer : Option (AbiCache A) → Version → Bool
  newer none v = true
  newer (some c) v = version_le c.version v

  -- The second query, if the first gave no ABI.
  unfoldable pub or_request :
      String → ℕ → Option A × Version → Exec (Receiver D A V) (Option A × Version)
  unfolding request_abi
  or_request contract n (some abi, v) = pure (some abi, v)
  or_request contract n (none, v) = request_abi contract n

  -- The cache entry is only replaced by one that is not older.
  unfoldable pub keep_newer : String → Option A × Version → Exec (Receiver D A V) (AbiCache A)
  unfolding version_le cached_abi store_abi
  keep_newer contract found r =
      let cache : AbiCache A = record { abi = found.0; version = found.1 } in
      if newer (cached_abi contract r.abis) found.1
      then (ok cache, (store_abi contract cache r).1)
      else (ok cache, r)

  unfoldable pub load_abi : String → ℕ → Exec (Receiver D A V) (AbiCache A)
  unfolding or_request keep_newer
  load_abi contract n = do
    raw ← on_database (source.fetch_abi contract n)
    found ← or_request contract n (found_at raw)
    keep_newer contract found

  abbrev pub usable : ℕ → Option (AbiCache A) → Bool
  usable n none = false
  usable n (some c) = version_le c.version (at_block n)

  abbrev pub or_unset : Option (AbiCache A) → AbiCache A
  or_unset none = record { abi = none; version = undefined }
  or_unset (some c) = c

  -- `fetchContractAbi`
  unfoldable pub fetch_contract_abi : String → ℕ → Exec (Receiver D A V) (AbiCache A)
  unfolding load_abi
  fetch_contract_abi contract n r =
      if usable n (cached_abi contract r.abis)
      then (ok (or_unset (cached_abi contract r.abis)), r)
      else load_abi contract n r

  unfoldable pub abi_of : AbiCache A → Exec (Receiver D A V) A
  abi_of cache = elim cache.abi [ none ↦ raise abi_not_found | some abi ↦ pure abi ]

  -- `fetchContractAbiObj`, and the ABI that `getActionAbiType` and `getTableAbiType` ask for
  unfoldable pub fetch_contract_abi_obj : String → ℕ → Exec (Receiver D A V) A
  unfolding fetch_contract_abi abi_of
  fetch_contract_abi_obj contract n = fetch_contract_abi contract n >>= abi_of
