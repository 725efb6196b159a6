-- ===== src/Filler/Receiver/Progress.antt =====
-- A block that `process` of src/filler/receiver.ts takes: the guards it passed, and where it leaves
-- the counters and the group of blocks that is not committed yet.
use atomicassets_api.Prelude.{
  ℕ, ◌+◌, ◌≤◌, ◌<◌, max, Bool, true, false, not, ◌&&◌, ◌≡◌, refl, sym, ap, ◌∙◌, ◌⊎◌, none, some,
  List, ltb, leb, arith, inl, inr, if◌then◌else◌, leb→le, leb_false→lt,
}
use atomicassets_api.Exec.{Failure, Outcome, ok, err}
use atomicassets_api.Filler.Types.{Trace, Transaction, Row}
use atomicassets_api.Filler.Modules.{FilterModule}
use atomicassets_api.Filler.Processor.{is_head}
use atomicassets_api.Filler.Receiver.{AbiSource, Database, Config, Payload, Response, Receiver}
use atomicassets_api.Filler.Receiver.Frame.{Same, Same-trans}
use atomicassets_api.Filler.Receiver.Commit.{
  continue_ok, final_keeps, Committed, Keeps-choose_transaction, Keeps-apply_block,
  apply_block-floor, commit_block-settles,
}
use atomicassets_api.Filler.Receiver.Process.{
  near_head, commit_size, is_fork, promote, choose_transaction, apply_block, caught, aborting,
  advance, settle, end_block, process,
}
use mathlib.Core.Path.{subst}

module _ {B : Type 0} where
  Outcome-cases : (o : Outcome B) → ((b : B) × (o ≡ ok b)) ⊎ ((x : Failure) × (o ≡ err x))
  Outcome-cases (ok b) = inl (b, refl)
  Outcome-cases (err x) = inr (x, refl)

  pub if_cases :
      (b : Bool) (x y z : B)
      → (if b then x else y) ≡ z
      → ((b ≡ true) × (x ≡ z)) ⊎ ((b ≡ false) × (y ≡ z))
  if_cases true x y z e = inl (refl, e)
  if_cases false x y z e = inr (refl, e)

module _ {D A V : Type 0} (db : Database D) (source : AbiSource D A V)
    (modules : List (FilterModule (Payload V))) (config : Config) (inside : ℕ → D → Bool) where
  -- The block ends the group, whose transaction is committed from a state where the block is the
  -- current one, or joins it, and the transaction stays open.
  abbrev pub Grouped : ℕ → Response → Receiver D A V → Receiver D A V → Type 0
  Grouped tx resp r s =
      ((s.collected_blocks ≡ 0)
        × (s.last_database_transaction ≡ none)
        × (s.last_committed_block ≡ resp.this_num)
        × (commit_size config resp (is_fork resp r) ≤ r.collected_blocks + 1)
        × (a : Receiver D A V) × (a.current_block ≡ resp.this_num)
        × (a.last_database_transaction ≡ some tx)
        × Committed db source modules config inside tx resp a s)
      ⊎ ((s.collected_blocks ≡ r.collected_blocks + 1)
          × (s.last_committed_block ≡ r.last_committed_block)
          × (r.collected_blocks + 1 < commit_size config resp (is_fork resp r))
          × (s.last_database_transaction ≡ some tx))

  pub record Processed (resp : Response) (r s : Receiver D A V) : Type 0 where
    pub next : resp.this_num ≤ r.current_block + 1
    pub floor : is_fork resp r ≡ true → r.last_irreversible_block ≤ resp.this_num
    pub current : s.current_block ≡ resp.this_num
    pub irreversible :
        s.last_irreversible_block ≡ max r.last_irreversible_block resp.irreversible_num
    pub state : s.processor.state ≡ (promote config resp r).processor.state
    pub stopped : s.queue_stopped ≡ r.queue_stopped
    pub tx : ℕ
    pub chosen :
        (choose_transaction db source modules config resp (promote config resp r)).0 ≡ ok tx
    pub grouped : Grouped tx resp r s

module _ {D A V : Type 0} where
  -- What is read of the counters.
  abbrev pub counters : Receiver D A V → ℕ × ℕ × ℕ × ℕ × Bool
  counters r = (
    r.current_block, r.last_irreversible_block, r.last_committed_block, r.collected_blocks,
    r.queue_stopped,
  )

  counters-if :
      (b : Bool) (x y : Receiver D A V)
      → counters x ≡ counters y
      → counters (if b then x else y) ≡ counters y
  counters-if true x y e = e
  counters-if false x y e = refl

  pub counters-Same : (r s : Receiver D A V) → Same r s → counters s ≡ counters r
  counters-Same r s h = cc

  -- A promotion replaces the processor alone.
  pub counters-promote :
      (config : Config) (resp : Response) (r : Receiver D A V)
      → counters (promote config resp r) ≡ counters r
  unfolding promote
  counters-promote config resp r =
      counters-if (not (is_head r.processor.state) && near_head config resp) _ r refl

module _ {D A V : Type 0} (db : Database D) (source : AbiSource D A V)
    (modules : List (FilterModule (Payload V))) (config : Config) where
  caught_ok :
      (tx : ℕ) (x : Outcome (Unit {0}) × Receiver D A V) (s : Receiver D A V)
      → caught db source modules config tx x ≡ (ok tt, s)
      → x ≡ (ok tt, s)
  unfolding caught
  caught_ok tx (ok u, t) s e = e
  caught_ok tx (err x, t) s e = absurd (cc)

  caught-success :
      (tx : ℕ) (x : Outcome (Unit {0}) × Receiver D A V) (u : Unit {0})
      → (caught db source modules config tx x).0 ≡ ok u
      → x ≡ (ok tt, (caught db source modules config tx x).1)
  unfolding caught
  caught-success tx (ok v, t) u e = refl
  caught-success tx (err x, t) u e = absurd (cc)

  end_block-Grouped :
      (inside : ℕ → D → Bool) (resp : Response) (forked : Bool) (tx : ℕ) (r s : Receiver D A V)
      → end_block db source modules config inside resp forked tx r ≡ (ok tt, s)
      → ((leb (commit_size config resp forked) r.collected_blocks ≡ true)
          × Same (settle db source modules config resp r) s
          × Committed db source modules config inside tx resp r s)
        ⊎ ((leb (commit_size config resp forked) r.collected_blocks ≡ false) × (r ≡ s))
  unfolding end_block
  end_block-Grouped inside resp forked tx r s e =
      elim (if_cases (leb (commit_size config resp forked) r.collected_blocks) _ _ _ e) [
        | inl (h, k) ↦
            let done =
              commit_block-settles db source modules config inside tx resp r s
                (caught_ok tx _ s k) in
            inl (h, done.0, done.1)
        | inr (h, k) ↦ inr (h, ap (λ x. x.1) k)
      ]

  -- The end of a block whose traces and rows are handled in the state t.
  end_block-Processed :
      (inside : ℕ → D → Bool) (resp : Response) (tx : ℕ) (r t s : Receiver D A V)
      → resp.this_num ≤ r.current_block + 1
      → (is_fork resp r ≡ true → r.last_irreversible_block ≤ resp.this_num)
      → counters t ≡ counters r
      → t.processor.state ≡ (promote config resp r).processor.state
      → end_block db source modules config inside resp
          (is_fork resp r)
          tx
          (advance db source modules config tx resp t)
        ≡ (ok tt, s)
      → (choose_transaction db source modules config resp (promote config resp r)).0 ≡ ok tx
      → Processed db source modules config inside resp r s
  unfolding advance
  end_block-Processed inside resp tx r t s next floor c st e chosen =
      elim (end_block-Grouped inside resp (is_fork resp r) tx _ s e) [
        | inl (h, k, w) ↦ record {
          next = next;
          floor = floor;
          current = k.current;
          irreversible = k.irreversible ∙ ap (λ x. max x resp.irreversible_num) (ap (λ x. x.1) c);
          state = k.state ∙ st;
          stopped = k.stopped ∙ ap (λ x. x.4) c;
          grouped = inl (
            k.collected,
            k.transaction,
            k.committed,
            subst (λ n. commit_size config resp (is_fork resp r) ≤ n + 1) (ap (λ x. x.3) c)
                (leb→le _ _ h),
            advance db source modules config tx resp t,
            refl,
            refl,
            w,
          );
          tx = tx;
          chosen = chosen;
        }
        | inr (h, k) ↦ record {
          next = next;
          floor = floor;
          current = sym (ap (λ x. x.current_block) k);
          irreversible =
              sym (ap (λ x. x.last_irreversible_block) k)
              ∙ ap (λ x. max x resp.irreversible_num) (ap (λ x. x.1) c);
          state = sym (ap (λ x. x.processor.state) k) ∙ st;
          stopped = sym (ap (λ x. x.queue_stopped) k) ∙ ap (λ x. x.4) c;
          grouped = inr (
            sym (ap (λ x. x.collected_blocks) k) ∙ ap (λ x. x.3 + 1) c,
            sym (ap (λ x. x.last_committed_block) k) ∙ ap (λ x. x.2) c,
            subst (λ n. n + 1 < commit_size config resp (is_fork resp r)) (ap (λ x. x.3) c)
                (leb_false→lt _ _ h),
            sym (ap (λ x. x.last_database_transaction) k),
          );
          tx = tx;
          chosen = chosen;
        }
      ]

  pub process-Processed :
      (inside : ℕ → D → Bool) (resp : Response) (traces : List (Transaction × Trace (Payload V)))
      (rows : List (Row (Payload V))) (r s : Receiver D A V)
      → process db source modules config inside resp traces rows r ≡ (ok tt, s)
      → Processed db source modules config inside resp r s
  unfolding process
  process-Processed inside resp traces rows r s e =
      elim (if_cases (ltb (r.current_block + 1) resp.this_num) _ _ _ e) [
        | inl (h, k) ↦ absurd (cc)
        | inr (h, k) ↦
            let p = promote config resp r in
            let chosen =
              continue_ok (choose_transaction db source modules config resp p).0 _ _ s tt k in
            let q = (choose_transaction db source modules config resp p).1 in
            let tx = chosen.0 in
            let applied =
              continue_ok
                (aborting db source modules config tx
                  (apply_block db source modules config tx resp traces rows) q).0
                _ _ s tt chosen.2 in
            let t =
              (aborting db source modules config tx
                (apply_block db source modules config tx resp traces rows) q).1 in
            let done =
              caught-success tx (apply_block db source modules config tx resp traces rows q)
                applied.0 applied.1 in
            let same = Same-trans ((Keeps-choose_transaction db source modules config resp).at p) (
              final_keeps _ q t (Keeps-apply_block db source modules config tx resp traces rows)
                done) in
            let c = counters-Same p t same ∙ counters-promote config resp r in
            let cq =
              counters-Same p q ((Keeps-choose_transaction db source modules config resp).at p)
              ∙ counters-promote config resp r in
            end_block-Processed inside resp tx r t s (ground arith)
              (λ f.
                subst (λ n. n ≤ resp.this_num) (ap (λ x. x.1) cq)
                  (apply_block-floor db source modules config tx resp traces rows q t done
                    (ap (λ x. leb resp.this_num x.0) cq ∙ f)))
              c same.state applied.2 chosen.1
      ]
