-- ===== src/Filler/Receiver/Frame.antt =====
-- What the handling of traces, rows and database calls leaves alone in the receiver.
use atomicassets_api.Prelude.{
  Bool, true, false, ◌≡◌, refl, ◌∙◌, Option, none, some, List, [], ◌∷◌, if◌then◌else◌,
}
use atomicassets_api.Exec.{Exec, Outcome, ok, err, pure, continue, for_each, ◌>>=◌, ◌>>◌}
use atomicassets_api.Filler.Receiver.{Receiver, World, on_database, on_world}

module _ {D A V : Type 0} where
  -- The counters, the open transaction and the processing state are the same.
  pub record Same (r s : Receiver D A V) : Type 0 where
    pub current : s.current_block ≡ r.current_block
    pub irreversible : s.last_irreversible_block ≡ r.last_irreversible_block
    pub committed : s.last_committed_block ≡ r.last_committed_block
    pub collected : s.collected_blocks ≡ r.collected_blocks
    pub transaction : s.last_database_transaction ≡ r.last_database_transaction
    pub stopped : s.queue_stopped ≡ r.queue_stopped
    pub state : s.processor.state ≡ r.processor.state

  pub Same-refl : (r : Receiver D A V) → Same r r
  Same-refl r = record {
    current = refl;
    irreversible = refl;
    committed = refl;
    collected = refl;
    transaction = refl;
    stopped = refl;
    state = refl;
  }

  pub Same-trans : {r s t : Receiver D A V} → Same r s → Same s t → Same r t
  Same-trans h k = record {
    current = k.current ∙ h.current;
    irreversible = k.irreversible ∙ h.irreversible;
    committed = k.committed ∙ h.committed;
    collected = k.collected ∙ h.collected;
    transaction = k.transaction ∙ h.transaction;
    stopped = k.stopped ∙ h.stopped;
    state = k.state ∙ h.state;
  }

module _ {D A V B : Type 0} where
  -- Whether it returns or throws, the action keeps them.
  pub record Keeps (m : Exec (Receiver D A V) B) : Type 0 where
    pub at : (r : Receiver D A V) → Same r (m r).1

  pub Keeps-pure : (b : B) → Keeps (pure b)
  Keeps-pure b = record { at = λ r. Same-refl r }

  pub Keeps-database : (m : Exec D B) → Keeps (on_database m)
  Keeps-database m = record {
    at = λ r. record {
      current = refl;
      irreversible = refl;
      committed = refl;
      collected = refl;
      transaction = refl;
      stopped = refl;
      state = refl;
    };
  }

  pub Keeps-world : (m : Exec (World D) B) → Keeps (on_world m)
  Keeps-world m = record {
    at = λ r. record {
      current = refl;
      irreversible = refl;
      committed = refl;
      collected = refl;
      transaction = refl;
      stopped = refl;
      state = refl;
    };
  }

  pub Keeps-if :
      (b : Bool) (m n : Exec (Receiver D A V) B) → Keeps m → Keeps n → Keeps (if b then m else n)
  Keeps-if true m n h k = h
  Keeps-if false m n h k = k

  -- A test of the state decides what is done.
  pub Same-if :
      (r : Receiver D A V) (b : Bool) (x y : Outcome B × Receiver D A V)
      → Same r x.1
      → Same r y.1
      → Same r (if b then x else y).1
  Same-if r true x y h k = h
  Same-if r false x y h k = k

  pub Same-option :
      {X : Type 0} (r : Receiver D A V) (o : Option X) (x : Outcome B × Receiver D A V)
      (f : X → Outcome B × Receiver D A V)
      → Same r x.1
      → ((v : X) → Same r (f v).1)
      → Same r (elim o as (λ _. Outcome B × Receiver D A V) [ none ↦ x | some v ↦ f v ]).1
  Same-option r none x f h k = h
  Same-option r (some v) x f h k = k v

  pub Keeps-option :
      {X : Type 0} (o : Option X) (m : Exec (Receiver D A V) B) (f : X → Exec (Receiver D A V) B)
      → Keeps m
      → ((x : X) → Keeps (f x))
      → Keeps (elim o [ none ↦ m | some x ↦ f x ])
  Keeps-option none m f h k = h
  Keeps-option (some x) m f h k = k x

module _ {D A V B C : Type 0} where
  continue_keeps :
      (r s : Receiver D A V) (o : Outcome B) (f : B → Exec (Receiver D A V) C)
      → Same r s
      → ((b : B) → Keeps (f b))
      → Same r (continue o f s).1
  continue_keeps r s (ok b) f h k = Same-trans h ((k b).at s)
  continue_keeps r s (err e) f h k = h

  pub Keeps-bind :
      (m : Exec (Receiver D A V) B) (f : B → Exec (Receiver D A V) C)
      → Keeps m
      → ((b : B) → Keeps (f b))
      → Keeps (m >>= f)
  Keeps-bind m f h k = record { at = λ r. continue_keeps r (m r).1 (m r).0 f (h.at r) k }

module _ {D A V : Type 0} where
  pub Keeps-then : (m n : Exec (Receiver D A V) (Unit {0})) → Keeps m → Keeps n → Keeps (m >> n)
  Keeps-then m n h k = record {
    at = λ r. continue_keeps r (m r).1 (m r).0 (λ _. n) (h.at r) (λ _. k);
  }

  pub Keeps-for_each :
      {X : Type 0} (body : X → Exec (Receiver D A V) (Unit {0}))
      → ((x : X) → Keeps (body x))
      → (xs : List X) → Keeps (for_each body xs)
  unfolding for_each
  Keeps-for_each body h [] = record { at = λ r. Same-refl r }
  Keeps-for_each body h (x ∷ xs) = record {
    at = λ r.
        continue_keeps r (body x r).1 (body x r).0 (λ _. for_each body xs) ((h x).at r)
          (λ _. Keeps-for_each body h xs);
  }
