-- ===== src/Filler/Receiver/Commit.antt =====
-- What `process` of src/filler/receiver.ts does to the counters and to the open transaction when it
-- succeeds.
use atomicassets_api.Prelude.{
  ℕ, ◌+◌, ◌≤◌, Bool, true, ◌||◌, ◌≡◌, refl, sym, ap, ◌∙◌, List, ltb, arith, Bool-cases, inl, inr,
  if◌then◌else◌, if_true,
}
use atomicassets_api.Exec.{Exec, Outcome, ok, err, below_floor, pure, continue, ◌>>◌}
use atomicassets_api.Filler.Types.{Trace, Transaction, Row}
use atomicassets_api.Filler.Modules.{FilterModule}
use atomicassets_api.Filler.Processor.{is_head, take_head_queue, notify_fork, notify_commit}
use atomicassets_api.Filler.Notifier.{send_fork, set_block_distance}
use atomicassets_api.Filler.Receiver.{
  AbiSource, Database, Config, Payload, Response, Receiver, World, on_world, on_database,
}
use atomicassets_api.Filler.Receiver.Handled.{Keeps-handle_action_trace, Keeps-handle_contract_row}
use atomicassets_api.Filler.Receiver.Frame.{
  Same, Same-refl, Same-trans, Keeps, Keeps-pure, Keeps-database, Keeps-if, Same-if, Same-option,
  Keeps-then, Keeps-for_each,
}
use atomicassets_api.Filler.Receiver.Process.{
  blocks_left, is_reversible, is_fork, start, choose_transaction, call_notifier, with_tx, roll_back,
  record_reversible, apply_block, execute_queue, write_position, update_position, undo_blocks,
  settle, publish_batch, commit_block,
}
use mathlib.Core.Path.{subst}

-- Success of a sequence is success of both.
module _ {S A B : Type 0} where
  pub continue_ok :
      (o : Outcome A) (f : A → Exec S B) (s t : S) (b : B)
      → continue o f s ≡ (ok b, t)
      → (a : A) × (o ≡ ok a) × (f a s ≡ (ok b, t))
  continue_ok (ok a) f s t b e = (a, refl, e)
  continue_ok (err x) f s t b e = absurd (cc)

module _ {D A V : Type 0} where
  pub seq-Keeps :
      (m n : Exec (Receiver D A V) (Unit {0})) (r t : Receiver D A V)
      → Keeps m
      → (m >> n) r ≡ (ok tt, t)
      → Same r (m r).1 × (n (m r).1 ≡ (ok tt, t))
  seq-Keeps m n r t h e = (h.at r, (continue_ok (m r).0 (λ _. n) (m r).1 t tt e).2)

  pub final_keeps :
      (m : Exec (Receiver D A V) (Unit {0})) (r t : Receiver D A V)
      → Keeps m
      → m r ≡ (ok tt, t)
      → Same r t
  final_keeps m r t h e = subst (Same r) (ap (λ x. x.1) e) (h.at r)

module _ {D A V : Type 0} (db : Database D) (source : AbiSource D A V)
    (modules : List (FilterModule (Payload V))) (config : Config) where
  pub Keeps-choose_transaction :
      (resp : Response) → Keeps (choose_transaction db source modules config resp)
  unfolding choose_transaction
  Keeps-choose_transaction resp = record {
    at = λ r.
        let fresh = on_database (db.start_transaction (start db source modules config resp)) in
        Same-option r r.last_database_transaction (fresh r)
          (λ tx. if is_reversible config resp then fresh r else (ok tx, r))
          ((Keeps-database (db.start_transaction (start db source modules config resp))).at r)
          (λ tx.
            Same-if r (is_reversible config resp) (fresh r) (ok tx, r)
              ((Keeps-database (db.start_transaction (start db source modules config resp))).at r)
              (Same-refl r));
  }

  Keeps-call_notifier : (f : World D → World D) → Keeps (call_notifier db source modules config f)
  Keeps-call_notifier f = record {
    at = λ r. record {
      current = refl;
      irreversible = refl;
      committed = refl;
      collected = refl;
      transaction = refl;
      stopped = refl;
      state = refl;
    };
  }

  Keeps-with_tx :
      (tx : ℕ) (m : Exec (World D) (Unit {0})) → Keeps (with_tx db source modules config tx m)
  Keeps-with_tx tx m = record {
    at = λ r. record {
      current = refl;
      irreversible = refl;
      committed = refl;
      collected = refl;
      transaction = refl;
      stopped = refl;
      state = refl;
    };
  }

  Keeps-roll_back : (tx : ℕ) (resp : Response) → Keeps (roll_back db source modules config tx resp)
  unfolding roll_back
  Keeps-roll_back tx resp = record {
    at = λ r.
        Same-if r (ltb resp.this_num r.last_irreversible_block) (err below_floor, r)
          (undo_blocks db source modules config tx resp r.processor r) (Same-refl r)
          ((Keeps-then _ _ (Keeps-database (db.rollback_reversible_blocks tx resp.this_num)) (
              Keeps-then _ _ (Keeps-with_tx tx (notify_fork r.processor)) (
                Keeps-call_notifier
                  (λ w. record w { notifier = send_fork resp.block.json w.notifier })))).at
            r);
  }

  Keeps-record_reversible :
      (tx : ℕ) (resp : Response) → Keeps (record_reversible db source modules config tx resp)
  Keeps-record_reversible tx resp =
      Keeps-then _ _ (Keeps-database (db.insert_reversible_block tx resp.this_num resp.this_id)) (
        Keeps-if _ _ _ (Keeps-database (db.clear_fork_database tx resp.irreversible_num))
          (Keeps-pure tt))

  Keeps-execute_queue : (tx : ℕ) → Keeps (execute_queue db source modules config tx)
  unfolding take_head_queue
  Keeps-execute_queue tx = record {
    at = λ r. record {
      current = refl;
      irreversible = refl;
      committed = refl;
      collected = refl;
      transaction = refl;
      stopped = refl;
      state = refl;
    };
  }

  Keeps-publish_batch : Keeps (publish_batch db source modules config)
  Keeps-publish_batch = record {
    at = λ r. record {
      current = refl;
      irreversible = refl;
      committed = refl;
      collected = refl;
      transaction = refl;
      stopped = refl;
      state = refl;
    };
  }

  Keeps-update_position :
      (inside : ℕ → D → Bool) (tx : ℕ) (resp : Response)
      → Keeps (update_position db source modules config inside tx resp)
  Keeps-update_position inside tx resp = record {
    at = λ r.
        Same-if r
          (inside tx r.world.database
            || is_reversible config resp
            || is_head r.processor.state
            || ltb (r.last_block_update + 500) resp.this_num)
          (write_position db source modules config tx resp r) (ok tt, r)
          ((Keeps-then _ (λ s. (ok tt, record s { last_block_update = resp.this_num }))
              (Keeps-database
                (db.update_reader_position tx resp.this_num (is_head r.processor.state)))
              (record {
                at = λ s. record {
                  current = refl;
                  irreversible = refl;
                  committed = refl;
                  collected = refl;
                  transaction = refl;
                  stopped = refl;
                  state = refl;
                };
              })).at
            r)
          (Same-refl r);
  }

  pub Keeps-apply_block :
      (tx : ℕ) (resp : Response) (traces : List (Transaction × Trace (Payload V)))
      (rows : List (Row (Payload V)))
      → Keeps (apply_block db source modules config tx resp traces rows)
  unfolding apply_block
  Keeps-apply_block tx resp traces rows = record {
    at = λ r.
        (Keeps-then _ _ (Keeps-if (is_fork resp r) _ _ (Keeps-roll_back tx resp) (Keeps-pure tt)) (
            Keeps-then _ _
              (Keeps-call_notifier (λ w. record w {
                notifier = set_block_distance (blocks_left config resp) w.notifier;
              }))
              (Keeps-then _ _
                (Keeps-for_each _ (Keeps-handle_action_trace source modules resp.block) traces)
                (Keeps-then _ _
                  (Keeps-for_each _ (Keeps-handle_contract_row source modules resp.block) rows)
                  (Keeps-if (is_reversible config resp) _ _ (Keeps-record_reversible tx resp)
                    (Keeps-pure tt)))))).at
          r;
  }

  roll_back-floor :
      (tx : ℕ) (resp : Response) (r : Receiver D A V) (u : Unit {0})
      → (roll_back db source modules config tx resp r).0 ≡ ok u
      → r.last_irreversible_block ≤ resp.this_num
  unfolding roll_back
  roll_back-floor tx resp r u e = elim (Bool-cases (ltb resp.this_num r.last_irreversible_block)) [
    | inl h ↦ absurd (cc)
    | inr h ↦ ground arith
  ]

  -- A fork that is applied does not reach below the last irreversible block.
  pub apply_block-floor :
      (tx : ℕ) (resp : Response) (traces : List (Transaction × Trace (Payload V)))
      (rows : List (Row (Payload V))) (r s : Receiver D A V)
      → apply_block db source modules config tx resp traces rows r ≡ (ok tt, s)
      → is_fork resp r ≡ true
      → r.last_irreversible_block ≤ resp.this_num
  unfolding apply_block
  apply_block-floor tx resp traces rows r s e f =
      let done =
        continue_ok
          ((if is_fork resp r then roll_back db source modules config tx resp else pure tt) r).0 _ _
          _ _ e in
      roll_back-floor tx resp r done.0 (
        ap (λ m. (m r).0)
          (sym (if_true (is_fork resp r) (roll_back db source modules config tx resp) (pure tt) f))
        ∙ done.1)

  Same-settle :
      (resp : Response) (r s : Receiver D A V)
      → Same r s
      → Same (settle db source modules config resp r) (settle db source modules config resp s)
  Same-settle resp r s h = record {
    current = h.current;
    irreversible = h.irreversible;
    committed = refl;
    collected = refl;
    transaction = refl;
    stopped = h.stopped;
    state = h.state;
  }

  Keeps-notify : Keeps {D = D} {A = A} {V = V} (λ q. on_world (notify_commit q.processor) q)
  Keeps-notify = record {
    at = λ r. record {
      current = refl;
      irreversible = refl;
      committed = refl;
      collected = refl;
      transaction = refl;
      stopped = refl;
      state = refl;
    };
  }

  abbrev pub announce : Exec (Receiver D A V) (Unit {0})
  announce = (λ r. on_world (notify_commit r.processor) r) >> publish_batch db source modules config

  -- From the state a, the queue ran in the transaction, and the position of the reader was written,
  -- without an error; in the state u that this left, the database committed the transaction without
  -- an error; and the state s is what the commit callbacks and the publishing of the batch make of
  -- the state v that the commit left.
  abbrev pub Committed : (ℕ → D → Bool) → ℕ → Response → Receiver D A V → Receiver D A V → Type 0
  Committed inside tx resp a s =
      (u : Receiver D A V) × (v : Receiver D A V) × ((execute_queue db source modules config tx
            >> update_position db source modules config inside tx resp)
          a
        ≡ (ok tt, u))
      × (on_database (db.commit tx) u ≡ (ok tt, v))
      × (announce (settle db source modules config resp v) ≡ (ok tt, s))

  both_ok :
      (m n : Exec (Receiver D A V) (Unit {0})) (r : Receiver D A V) (x y : Unit {0})
      → (m r).0 ≡ ok x
      → (n (m r).1).0 ≡ ok y
      → (m >> n) r ≡ (ok tt, (n (m r).1).1)
  both_ok m n r x y e d = ap (λ o. continue o (λ _. n) (m r).1) e ∙ ap (λ o. (o, (n (m r).1).1)) d

  -- Committing leaves the counters as `settle` does.
  pub commit_block-settles :
      (inside : ℕ → D → Bool) (tx : ℕ) (resp : Response) (r s : Receiver D A V)
      → commit_block db source modules config inside tx resp r ≡ (ok tt, s)
      → Same (settle db source modules config resp r) s × Committed inside tx resp r s
  unfolding commit_block
  commit_block-settles inside tx resp r s e =
      let queued =
        seq-Keeps (execute_queue db source modules config tx) _ r s (Keeps-execute_queue tx) e in
      let placed =
        seq-Keeps (update_position db source modules config inside tx resp) _ _ s
          (Keeps-update_position inside tx resp) queued.1 in
      let written =
        seq-Keeps (on_database (db.commit tx)) _ _ s (Keeps-database (db.commit tx)) placed.1 in
      let told =
        seq-Keeps (λ q. on_world (notify_commit q.processor) q) _ _ s Keeps-notify written.1 in
      let u =
        (update_position db source modules config inside tx resp
          (execute_queue db source modules config tx r).1).1 in
      let ran = continue_ok (execute_queue db source modules config tx r).0 _ _ s tt e in
      let put =
        continue_ok
          (update_position db source modules config inside tx resp
            (execute_queue db source modules config tx r).1).0
          _ _ s tt ran.2 in
      let answered = continue_ok (on_database (db.commit tx) u).0 _ _ s tt placed.1 in
      (
        Same-trans (Same-settle resp r _ (Same-trans queued.0 (Same-trans placed.0 written.0))) (
            Same-trans told.0 (
              final_keeps (publish_batch db source modules config) _ s Keeps-publish_batch told.1)),
        (
          u,
          (on_database (db.commit tx) u).1,
          both_ok (execute_queue db source modules config tx)
              (update_position db source modules config inside tx resp) r ran.0 put.0 ran.1 put.1,
          ap (λ o. (o, (on_database (db.commit tx) u).1)) answered.1,
          answered.2,
        ),
      )
