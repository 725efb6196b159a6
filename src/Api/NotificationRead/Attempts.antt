-- ===== src/Api/NotificationRead/Attempts.antt =====
-- How often `readNotifiedRows` of src/api/notification-read.ts queries, and what it returns.
use mathlib.Core.Path.{subst}
use atomicassets_api.Prelude.{
  ℕ, zero, suc, ◌+◌, ◌<◌, Bool, true, false, ◌≡◌, refl, sym, ap, ◌∙◌, ◌⊎◌, inl, inr, String, Option,
  none, some, List, [], leb, ◌-◌, Bool-cases, if◌then◌else◌, arith,
}
use atomicassets_api.Exec.{Exec, Outcome, ok, err, continue, ◌>>◌}
use atomicassets_api.Filler.Database.WriteBuffer.{lookup}
use atomicassets_api.Api.NotificationRead.{
  NotifiedRowsQuery, Reader, WarnState, is_empty, behind, warn, warn_at, stop_or, sleep_between,
  read_attempts, read_notified_rows,
}

module _ {S R : Type 0} (q : NotifiedRowsQuery S R) where
  -- The state after a number of queries, and what the next one answers.
  abbrev pub world_after : ℕ → S → S
  world_after zero s = s
  world_after (suc n) s = world_after n (q.query s).1

  abbrev pub read_at : ℕ → S → Outcome (List R)
  read_at n s = (q.query (world_after n s)).0

  -- Rows of which one is behind the block that was notified
  abbrev pub Lags : Outcome (List R) → Type 0
  Lags (ok rows) = is_empty q (behind q rows) ≡ false
  Lags (err e) = ⊥

  -- The answer that is returned: its place, and that those before it lag, while it does not, or is the
  -- last that may be asked for.
  pub record Reached (attempts : ℕ) (s : S) (result : Outcome (List R) × S) : Type 0 where
    pub count : ℕ
    pub bounded : count < attempts
    pub answer : result.0 ≡ read_at count s
    pub world : result.1 ≡ world_after (suc count) s
    pub earlier : (i : ℕ) → i < count → Lags (read_at i s)
    pub ended : (suc count ≡ attempts) ⊎ (Lags (read_at count s) → ⊥)

  abbrev seen : Outcome (List R) × Reader S → Outcome (List R) × S
  seen (o, r) = (o, r.world)

  first :
      (n : ℕ) (s : S) (o : Outcome (List R))
      → (q.query s).0 ≡ o
      → (suc 0 ≡ suc n) ⊎ (Lags o → ⊥)
      → Reached (suc n) s (o, (q.query s).1)
  first n s o e h = record {
    count = 0;
    bounded = omega arith;
    answer = sym e;
    world = refl;
    earlier = λ i l. absurd (omega (arith, l));
    ended = subst (λ x. (suc 0 ≡ suc n) ⊎ (Lags x → ⊥)) (sym e) h;
  }

  later_lags :
      (s : S) (k : ℕ)
      → Lags (read_at 0 s)
      → ((i : ℕ) → i < k → Lags (read_at i (q.query s).1))
      → (i : ℕ) → i < suc k
      → Lags (read_at i s)
  later_lags s k h g zero l = h
  later_lags s k h g (suc i) l = g i (omega (arith, l))

  later :
      (n : ℕ) (s : S) (result : Outcome (List R) × S)
      → Lags (q.query s).0
      → Reached n (q.query s).1 result
      → Reached (suc n) s result
  later n s result h r = record {
    count = suc r.count;
    bounded = omega (arith, r.bounded);
    answer = r.answer;
    world = r.world;
    earlier = later_lags s r.count h r.earlier;
    ended = elim r.ended [ inl e ↦ inl (ap (λ k. suc k) e) | inr g ↦ inr g ];
  }

  warn_at-world :
      (ids : List String) (now : ℕ) (r : Reader S) (o : Option WarnState)
      → (warn_at q ids now r o).world ≡ r.world
  warn_at-world ids now r none = refl
  warn_at-world ids now r (some w) = elim (Bool-cases (leb 60000 (now - w.last_warn_at))) [
    | inl e ↦ rw e refl
    | inr e ↦ rw e refl
  ]

  warned-world :
      (b : Bool) (ids : List String) (r : Reader S)
      → (if◌then◌else◌ {A = Reader S} b r (warn q ids r)).world ≡ r.world
  unfolding warn
  warned-world true ids r = refl
  warned-world false ids r = warn_at-world ids (q.clock r.world) r (lookup q.channel r.warn_state)

  stopped :
      (n : ℕ) (r : Reader S) (rows : List R) (rest : Exec (Reader S) (List R)) (b : Bool)
      → is_empty q (behind q rows) ≡ b
      → (q.query r.world).0 ≡ ok rows
      → (b ≡ false
          → Reached (suc n) r.world (seen (rest (record r { world = (q.query r.world).1 }))))
      → Reached
          (suc n)
          r.world
          (seen (stop_or q b rows rest (record r { world = (q.query r.world).1 })))
  stopped n r rows rest true e h k =
      first n r.world (ok rows) h (inr (λ l. absurd (let x = sym e ∙ l in cc)))
  stopped n r rows rest false e h k = k refl

  after_read :
      (n : ℕ) (r : Reader S) (next : List R → Exec (Reader S) (List R)) (o : Outcome (List R))
      → (q.query r.world).0 ≡ o
      → ((rows : List R)
          → (q.query r.world).0 ≡ ok rows
          → is_empty q (behind q rows) ≡ false
          → Reached (suc n) r.world (seen (next rows (record r { world = (q.query r.world).1 }))))
      → Reached (suc n) r.world (
          seen (
            continue o
              (λ found. stop_or q (is_empty q (behind q found)) found (next found))
              (record r { world = (q.query r.world).1 })))
  after_read n r next (err e) h k = first n r.world (err e) h (inr (λ l. l))
  after_read n r next (ok rows) h k =
      stopped n r rows (next rows) (is_empty q (behind q rows)) refl h (λ e. k rows h e)

  attempts-Reached :
      (n : ℕ) (r : Reader S) (before : List R) (lagging : List String)
      → Reached (suc n) r.world (seen (read_attempts q (suc n) before lagging r))
  unfolding read_attempts
  attempts-Reached zero r before lagging =
      after_read 0 r (λ found. sleep_between q 0 >> read_attempts q 0 found (behind q found))
        (q.query r.world).0 refl
        (λ rows h e.
          subst (λ w. Reached 1 r.world (ok rows, w))
            (sym (
              warned-world (is_empty q (behind q rows)) (behind q rows)
                (record r { world = (q.query r.world).1 })))
            (first 0 r.world (ok rows) h (inl refl)))
  attempts-Reached (suc n) r before lagging =
      after_read (suc n) r
        (λ found. sleep_between q (suc n) >> read_attempts q (suc n) found (behind q found))
        (q.query r.world).0 refl
        (λ rows h e. later (suc n) r.world _ (subst Lags (sym h) e) (
          attempts-Reached n (record r { world = (q.query r.world).1; slept = r.slept + 1 }) rows
            (behind q rows)))

  -- Where at least one attempt is allowed, `readNotifiedRows` ends after at most as many queries. What
  -- it returns or throws is the answer of its last query; all answers before that were rows of
  -- which one is behind its block, and the last one is not such, or it is the last that is
  -- allowed.
  pub read_notified_rows-Reached :
      (n : ℕ) (r : Reader S)
      → q.attempts ≡ suc n
      → Reached q.attempts r.world (seen (read_notified_rows q r))
  unfolding read_notified_rows
  read_notified_rows-Reached n r e =
      subst (λ k. Reached k r.world (seen (read_attempts q k [] [] r))) (sym e)
        (attempts-Reached n r [] [])
