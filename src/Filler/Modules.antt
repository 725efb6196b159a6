-- ===== src/Filler/Modules.antt =====
-- The optional filters of src/filler/modules.ts. A module is loaded from outside the repository's
-- TypeScript; it is the record of the filters that it exports, each of which may be absent.
use atomicassets_api.Prelude.{
  ℕ, Bool, true, false, not, Option, none, some, List, [], ◌∷◌, if◌then◌else◌,
}
use atomicassets_api.Filler.Types.{Block, Trace, Transaction, Row}

-- `IModule`
pub record FilterModule (V : Type 0) : Type 0 where
  pub trace_filter : Option (Block → Transaction → Trace V → Bool)
  pub delta_filter : Option (Block → Row V → Bool)
  pub raw_trace_filter : Option (ℕ → Transaction → Trace V → Bool)
  pub raw_delta_filter : Option (ℕ → Row V → Bool)

-- `filter && !filter(...)`
abbrev rejects : {A : Type 0} → Option A → (A → Bool) → Bool
rejects none apply = false
rejects (some f) apply = not (apply f)

module _ {V : Type 0} where
  unfoldable pub check_trace : List (FilterModule V) → Block → Transaction → Trace V → Bool
  check_trace [] block tx trace = true
  check_trace (m ∷ ms) block tx trace =
      let rest = check_trace ms block tx trace in
      if rejects m.raw_trace_filter (λ f. f block.block_num tx trace)
      then false
      else if rejects m.trace_filter (λ f. f block tx trace)
      then false
      else rest

  unfoldable pub check_delta : List (FilterModule V) → Block → Row V → Bool
  check_delta [] block delta = true
  check_delta (m ∷ ms) block delta =
      let rest = check_delta ms block delta in
      if rejects m.raw_delta_filter (λ f. f block.block_num delta)
      then false
      else if rejects m.delta_filter (λ f. f block delta)
      then false
      else rest

  unfoldable pub check_raw_trace : List (FilterModule V) → ℕ → Transaction → Trace V → Bool
  check_raw_trace [] n tx trace = true
  check_raw_trace (m ∷ ms) n tx trace =
      let rest = check_raw_trace ms n tx trace in
      if rejects m.raw_trace_filter (λ f. f n tx trace) then false else rest

  unfoldable pub check_raw_delta : List (FilterModule V) → ℕ → Row V → Bool
  check_raw_delta [] n delta = true
  check_raw_delta (m ∷ ms) n delta =
      let rest = check_raw_delta ms n delta in
      if rejects m.raw_delta_filter (λ f. f n delta) then false else rest
