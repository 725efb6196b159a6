-- ===== src/Filler/Database/Transaction/Ends.antt =====
-- That the loop of `rollbackReversibleBlocks` of src/filler/database.ts ends.
use atomicassets_api.Prelude.{
  ℕ, zero, suc, ◌+◌, ◌≤◌, ◌<◌, Bool, true, false, ◌≡◌, ◌≢◌, refl, inl, inr, String, map, length,
  ltb, ltb→lt, ◌==◌, Bool-cases, arith,
}
use atomicassets_api.Exec.{
  Exec, Outcome, ok, err, Failure, thrown, type_error, invalid_rollback_operation, loops_on,
  waits_for_itself, continue, for_each, ◌>>◌,
}
use atomicassets_api.Exec.Leads.{
  Fails, Result, Leads, Leads-then, Leads-for_each, Result-if, Result-split,
}
use atomicassets_api.Filler.Database.Values.{Value}
use atomicassets_api.Filler.Database.Statement.{
  RollbackQuery, count_reversible_queries, select_reversible_queries, delete_reversible_blocks_from,
  rewind_reader, Reply, Answer, answered, refused, Client,
}
use atomicassets_api.Filler.Database.Transaction.{
  ContractDbTransaction, with_lock, release_lock, client_query, outcome, begin,
}
use atomicassets_api.Filler.Database.Transaction.Rollback.{
  restore, finish_page, undo_page, undo_pages, forget_blocks, undo_from, rollback_reversible_blocks,
}
use atomicassets_api.Filler.Database.Transaction.Frame.{Frame}
use atomicassets_api.Filler.Database.Transaction.Stable.{Stable, stable_frame}
use atomicassets_api.Filler.Database.Transaction.Replayed.{Inner-restore}
use atomicassets_api.Filler.Database.Transaction.Undone.{Inner-finish_page, Inner-two_queries}

-- A call fails, if it does, by a throw, and not by going on for ever.
abbrev pub IsEnd : Failure → Type 0
IsEnd e = e ≢ loops_on

thrown-IsEnd : (message : String) → IsEnd (thrown message)
thrown-IsEnd message e = absurd (cc)

-- The SELECT of a page of saved queries counts no rows where it has none.
abbrev pub CountsRows : {S : Type 0} → Client S → Type 0
CountsRows {S} client =
    (block : ℕ) (reader : String) (limit : ℕ) (s : S) (r : Reply)
    → (client.query (select_reversible_queries block reader limit) s).0 ≡ answered r
    → (r.row_count == 0) ≡ false
    → 0 < length r.saved

module _ {S : Type 0} (client : Client S) (counts : CountsRows client) (text : Value → String) where
  abbrev Any : ContractDbTransaction S → Type 0
  Any t = Unit {0}

  Stable-Any : Stable client IsEnd thrown-IsEnd Any
  Stable-Any = record {
    asked = λ t statement p. tt;
    registered = λ t l p. tt;
    turned = λ t b p. tt;
    alike = λ t u a p. tt;
  }

  type_error-IsEnd : IsEnd type_error
  type_error-IsEnd e = absurd (cc)

  invalid-IsEnd : IsEnd invalid_rollback_operation
  invalid-IsEnd e = absurd (cc)

  abbrev any_frame : Frame client IsEnd
  any_frame = stable_frame client IsEnd thrown-IsEnd Stable-Any type_error-IsEnd invalid-IsEnd

  page_ends :
      (next : ℕ → Exec (ContractDbTransaction S) (Unit {0})) (r : Reply)
      (t : ContractDbTransaction S)
      → ((r.row_count == 0) ≡ false → Leads IsEnd Any Any (next (length r.saved)))
      → Result IsEnd Any (undo_page client text next r t)
  unfolding undo_page
  page_ends next r t h =
      Result-split IsEnd Any (r.row_count == 0) (ok tt, t) _ (λ e. (tt, tt))
        (λ e.
          (Leads-then (for_each (restore client text) r.saved) _
              (Leads-for_each (restore client text) (Inner-restore any_frame text) r.saved)
              (Leads-then (finish_page client text (map (λ (q : ℕ × RollbackQuery). q.0) r.saved))
                (next (length r.saved))
                (Inner-finish_page any_frame text (map (λ (q : ℕ × RollbackQuery). q.0) r.saved))
                (h e) (λ u p. tt))
              (λ u p. tt)).at
            t tt)

  answered_ends :
      (a : Answer) (t : ContractDbTransaction S)
      (f : Reply → Exec (ContractDbTransaction S) (Unit {0}))
      → ((r : Reply) → a ≡ answered r → Result IsEnd Any (f r t))
      → Result IsEnd Any (continue (outcome a) f t)
  answered_ends (answered r) t f h = h r refl
  answered_ends (refused m) t f h = (tt, thrown-IsEnd m)

  undo_pages-Result :
      (fuel block counter total : ℕ) (t : ContractDbTransaction S)
      → total ≤ counter + fuel
      → Result IsEnd Any (undo_pages client text fuel block counter total t)
  unfolding undo_pages client_query
  undo_pages-Result zero block counter total t h = elim (Bool-cases (ltb counter total)) [
    | inl e ↦ absurd (omega (arith, h, ltb→lt counter total e))
    | inr e ↦ rw e (tt, tt)
  ]
  undo_pages-Result (suc fuel) block counter total t h =
      Result-if IsEnd Any (ltb counter total) _ (ok tt, t)
        (answered_ends (client.query (select_reversible_queries block t.name 100) t.world).0 _ _
          (λ r e. page_ends _ r _ (λ z. record {
            at = λ u p.
                undo_pages-Result fuel block (counter + length r.saved) total u
                  (omega (arith, h, counts block t.name 100 t.world r e z));
          })))
        (tt, tt)

  undo_from-Result :
      (block : ℕ) (t : ContractDbTransaction S) → Result IsEnd Any (undo_from client text block t)
  unfolding undo_from client_query
  undo_from-Result block t =
      answered_ends (client.query (count_reversible_queries block t.name) t.world).0 _ _ (λ r e.
        (Leads-then {P = Any} (undo_pages client text r.total block 0 r.total)
            (forget_blocks client text block)
            (record { at = λ u p. undo_pages-Result r.total block 0 r.total u (omega arith) })
            (record {
              at = λ u p.
                  (Inner-two_queries any_frame text (delete_reversible_blocks_from block u.name)
                      (rewind_reader block u.name) refl refl).at
                    u p;
            })
            (λ u p. p)).at
          _ tt)

  released_ends :
      (r : Outcome (Unit {0}) × ContractDbTransaction S)
      → Fails IsEnd r.0
      → Fails IsEnd (release_lock r).0
  released_ends (o, t) h = h

  waits-IsEnd : IsEnd waits_for_itself
  waits-IsEnd e = absurd (cc)

  with_lock_ends :
      (lock : Bool) (m : Exec (ContractDbTransaction S) (Unit {0})) (t : ContractDbTransaction S)
      → Leads IsEnd Any Any m
      → Fails IsEnd (with_lock lock m t).0
  unfolding with_lock
  with_lock_ends false m t h = (h.at t tt).1
  with_lock_ends true m t h =
      (Result-if IsEnd Any t.locked (err waits_for_itself, t)
        (release_lock (m (record t { locked = true }))) (tt, waits-IsEnd)
        (
          tt,
          released_ends (m (record t { locked = true })) ((h.at (record t { locked = true }) tt).1),
        )).1

  -- `rollbackReversibleBlocks` ends: its loop never goes on for ever, since each page that it replays
  -- brings the counter closer to the total. This holds whatever the statements of the rollback do and
  -- throw, where a page of saved queries whose count is not 0 has at least one row.
  pub rollback_reversible_blocks-IsEnd :
      (block : ℕ) (lock : Bool) (t : ContractDbTransaction S)
      → Fails IsEnd (rollback_reversible_blocks client text block lock t).0
  unfolding rollback_reversible_blocks
  rollback_reversible_blocks-IsEnd block lock t =
      let body =
        Leads-then {P = Any} (begin client) (undo_from client text block) (any_frame.begins)
          (record { at = λ u p. undo_from-Result block u }) (λ u p. p) in
      with_lock_ends lock (begin client >> undo_from client text block) t body
