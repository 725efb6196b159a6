-- ===== src/Filler/Database/Examples.antt =====
-- Rows, batches and values at concrete inputs.
use atomicassets_api.Prelude.{
  ◌*◌, ◌≤◌, ◌<◌, ◌≡◌, refl, false, String, some, List, [], ◌∷◌, length, arith,
}
use atomicassets_api.Prelude.Predicates.{All}
use atomicassets_api.Filler.Utils.{concat}
use atomicassets_api.Filler.Database.Values.{
  Value, raw, Columns, at, columns, remove_identical_values,
}
use atomicassets_api.Filler.Database.Undo.{IsRestored, Row, updated, set_columns, rollback-restores}
use atomicassets_api.Filler.Database.WriteBuffer.{Batch, update, put_rows, batch_chunks, lookup}
use atomicassets_api.Filler.Database.UpdateBuffer.{
  Update, update_key, add_update, set_value, target, lookup-add_update,
}
use atomicassets_api.Filler.Database.Batches.{Latest, put_rows-Latest, batch_chunks-AreBound}

abbrev sale : Columns
sale = ("price", raw "5") ∷ ("owner", raw "6") ∷ ("id", raw "1") ∷ []

abbrev sale_row : Row
sale_row k = at k sale

abbrev change : Columns
change = ("price", raw "9") ∷ []

rollback-restores_example : IsRestored (sale_row "price") (
    updated
      (remove_identical_values sale change ("id" ∷ []))
      (updated (set_columns change ("id" ∷ [])) sale_row)
      "price")
rollback-restores_example =
    rollback-restores sale_row sale change ("id" ∷ []) "price" refl (λ k v e. rw e refl)
      (λ e. absurd (cc))

abbrev text : Value → String
text (raw s) = s
text _ = ""

abbrev empty : Batch
empty = record {
  table = "sales";
  rows = [];
  pk_index = [];
  primary_key = "id" ∷ [];
  on_conflict = update;
  reversible = false;
  update_blacklist = [];
}

abbrev newer : Columns
newer = ("id", raw "1") ∷ ("price", raw "7") ∷ []

put_rows-Latest_example :
    Latest text ("id" ∷ []) (sale ∷ newer ∷ []) empty (put_rows text (sale ∷ newer ∷ []) empty)
put_rows-Latest_example =
    put_rows-Latest text ("id" ∷ []) (sale ∷ newer ∷ []) empty refl
      (record { positions = λ h. refl; unique = λ h. omega arith })

abbrev filled : Batch
filled = record empty { rows = newer ∷ newer ∷ [] }

batch_chunks-AreBound_example :
    (cs : List (List Columns)) × (batch_chunks filled ≡ some cs)
    × (concat cs ≡ filled.rows)
    × All (λ c. (0 < length c) × (length c ≤ 500) × (length c * length (columns newer) ≤ 65535)) cs
batch_chunks-AreBound_example =
    batch_chunks-AreBound filled newer (newer ∷ []) refl (omega arith) (omega arith)

abbrev buffered : List (String × Update)
buffered =
    (
      "sales:1",
      record {
        table = "sales";
        pk_columns = "id" ∷ [];
        pk_values = ("id", raw "1") ∷ [];
        set_values = ("price", raw "7") ∷ ("owner", raw "6") ∷ [];
      },
    )
    ∷ []

lookup-add_update_example :
    (set_value "price"
        (lookup "sales:1" (add_update text "sales" change (raw "1" ∷ []) ("id" ∷ []) buffered))
      ≡ some (raw "9"))
    × (target
          (lookup "sales:1" (add_update text "sales" change (raw "1" ∷ []) ("id" ∷ []) buffered))
        ≡ some ("sales", "id" ∷ [], ("id", raw "1") ∷ []))
unfolding update_key
lookup-add_update_example =
    lookup-add_update text "sales" change (raw "1" ∷ []) ("id" ∷ []) buffered "price" "sales:1"
