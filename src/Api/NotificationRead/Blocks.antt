-- ===== src/Api/NotificationRead/Blocks.antt =====
-- What `extractNotificationBlocks` of src/api/notification-read.ts collects.
use atomicassets_api.Prelude.{
  ℕ, max, Bool, true, false, ◌≡◌, refl, sym, ap, ◌∙◌, inl, inr, String, str_eq, eq_iff, Option,
  none, some, List, [], ◌∷◌, ltb, Bool-cases, if◌then◌else◌, arith,
}
use atomicassets_api.Exec.{Outcome, ok, err}
use atomicassets_api.Json.{Json}
use atomicassets_api.Filler.Notification.{Notification}
use atomicassets_api.Filler.Database.WriteBuffer.{lookup, put}
use atomicassets_api.Filler.Database.UpdateBuffer.{lookup-put}
use atomicassets_api.Api.NotificationRead.{
  Identifier, and_then, reported, higher, note, from_reports, extract_notification_blocks,
}

-- The larger of two blocks, where there is one.
abbrev pub larger : Option ℕ → Option ℕ → Option ℕ
larger none y = y
larger (some a) none = some a
larger (some a) (some b) = some (max a b)

abbrev block_for : String → Outcome (Option (String × ℕ)) → Option ℕ
block_for k (ok (some (j, n))) = if str_eq j k then some n else none
block_for k _ = none

larger_assoc : (x y z : Option ℕ) → larger (larger x y) z ≡ larger x (larger y z)
larger_assoc none y z = refl
larger_assoc (some a) none z = refl
larger_assoc (some a) (some b) none = refl
larger_assoc (some a) (some b) (some c) = ap some (omega arith)

larger-none : (x : Option ℕ) → larger x none ≡ x
larger-none none = refl
larger-none (some a) = refl

raised_is_larger : (n : ℕ) (o : Option ℕ) → (if higher n o then some n else o) ≡ larger o (some n)
raised_is_larger n none = refl
raised_is_larger n (some a) = elim (Bool-cases (ltb a n)) [
  | inl e ↦ rw e (ap some (ground arith))
  | inr e ↦ rw e (ap some (ground arith))
]

if_noted :
    (k j : String) (n : ℕ) (blocks : List (String × ℕ)) (b : Bool)
    → str_eq j k ≡ true
    → lookup k (if b then put j n blocks else blocks) ≡ (if b then some n else lookup k blocks)
if_noted k j n blocks true f = lookup-put k j n blocks ∙ rw f refl
if_noted k j n blocks false f = refl

unnoted :
    (k j : String) (n : ℕ) (blocks : List (String × ℕ)) (b : Bool)
    → str_eq j k ≡ false
    → lookup k (if b then put j n blocks else blocks) ≡ lookup k blocks
unnoted k j n blocks true f = lookup-put k j n blocks ∙ rw f refl
unnoted k j n blocks false f = refl

-- A report raises the block of its identifier, and leaves the others.
noted :
    (k j : String) (n : ℕ) (blocks : List (String × ℕ)) (b : Bool)
    → higher n (lookup j blocks) ≡ b
    → lookup k (if b then put j n blocks else blocks)
      ≡ larger (lookup k blocks) (if str_eq j k then some n else none)
noted k j n blocks b e = elim (Bool-cases (str_eq j k)) [
  | inl f ↦
      let same = (eq_iff j k).0 f in
      rw f (
        if_noted k j n blocks b f
        ∙ ap (λ c. if c then some n else lookup k blocks)
            (sym e ∙ ap (λ i. higher n (lookup i blocks)) same)
        ∙ raised_is_larger n (lookup k blocks))
  | inr f ↦ rw f (unnoted k j n blocks b f ∙ sym (larger-none (lookup k blocks)))
]

lookup-note :
    (k : String) (r : Option (String × ℕ)) (blocks : List (String × ℕ))
    → lookup k (note r blocks) ≡ larger (lookup k blocks) (block_for k (ok r))
unfolding note
lookup-note k none blocks = sym (larger-none (lookup k blocks))
lookup-note k (some (j, n)) blocks = noted k j n blocks (higher n (lookup j blocks)) refl

module _ (text : Json → String) (number : Json → Option ℕ) (identifier : Identifier) where
  -- The highest block that the notifications report for an identifier.
  abbrev pub highest_reported : String → List Notification → Option ℕ
  highest_reported k [] = none
  highest_reported k (n ∷ ns) =
      larger (block_for k (reported text number identifier n)) (highest_reported k ns)

  raised :
      (k : String) (n : Notification) (ns : List Notification) (blocks out : List (String × ℕ))
      (o : Outcome (Option (String × ℕ)))
      → reported text number identifier n ≡ o
      → and_then o (λ r. from_reports text number (note r blocks) ns identifier) ≡ ok out
      → ((blocks : List (String × ℕ))
          → from_reports text number blocks ns identifier ≡ ok out
          → lookup k out ≡ larger (lookup k blocks) (highest_reported k ns))
      → lookup k out ≡ larger (lookup k blocks) (larger (block_for k o) (highest_reported k ns))
  raised k n ns blocks out (err e) h p ih = absurd (cc)
  raised k n ns blocks out (ok r) h p ih =
      ih (note r blocks) p
      ∙ ap (λ x. larger x (highest_reported k ns)) (lookup-note k r blocks)
      ∙ larger_assoc (lookup k blocks) (block_for k (ok r)) (highest_reported k ns)

  ok_inj : {A : Type 0} (x y : A) → ok x ≡ ok y → x ≡ y
  ok_inj x y e = ap (λ o. elim o [ ok a ↦ a | err f ↦ x ]) e

  from_reports_lem :
      (k : String) (ns : List Notification) (blocks out : List (String × ℕ))
      → from_reports text number blocks ns identifier ≡ ok out
      → lookup k out ≡ larger (lookup k blocks) (highest_reported k ns)
  unfolding from_reports
  from_reports_lem k [] blocks out p =
      ap (lookup k) (sym (ok_inj blocks out p)) ∙ sym (larger-none (lookup k blocks))
  from_reports_lem k (n ∷ ns) blocks out p =
      raised k n ns blocks out (reported text number identifier n) refl p
        (λ b. from_reports_lem k ns b out)

  -- Where no notification makes it throw, `extractNotificationBlocks` gives for each identifier the
  -- highest block that a notification reports for it, and none where none does.
  pub lookup-extract_notification_blocks :
      (k : String) (ns : List Notification) (out : List (String × ℕ))
      → extract_notification_blocks text number ns identifier ≡ ok out
      → lookup k out ≡ highest_reported k ns
  unfolding extract_notification_blocks
  lookup-extract_notification_blocks k ns out p = from_reports_lem k ns [] out p
