-- ===== src/Filler/Notification/Encoding.antt =====
-- What the tables of the encoder hold after a chunk.
use mathlib.Core.Path.{subst}
use text.Mathlib.TextPositions.{eq_refl}
use atomicassets_api.Prelude.{
  ℕ, ◌≡◌, refl, ap, ◌∙◌, Bool, true, false, String, str_eq, eq_iff, Option, none, some, List, [],
  ◌∷◌, ◌++◌, ◌==◌, arith, Bool-cases, Option-cases, inl, inr, ◌⊎◌, if◌then◌else◌,
}
use atomicassets_api.Filler.Notification.{
  Heap, Notification, Entry, Table, reference_of, tx_of, has_own, free_reference, add_tx, entry_of,
  encode_with, encode_one, encode_all,
}
use atomicassets_api.Filler.Notification.References.{has_own-free_reference}

-- A key that an object has leads back to it.
abbrev pub IsLinked : Table → Type 0
IsLinked t = (r : ℕ) (k : String) → reference_of r t.references ≡ some k → tx_of k t.txs ≡ some r

-- Nothing that the first table holds is lost or moved.
abbrev pub Extends : Table → Table → Type 0
Extends t u = (k : String) (r : ℕ) → tx_of k t.txs ≡ some r → tx_of k u.txs ≡ some r

tx_of-has_own : (k : String) (l : List (String × ℕ)) → has_own k l ≡ false → tx_of k l ≡ none
unfolding tx_of has_own
tx_of-has_own k [] h = refl
tx_of-has_own k ((j, r) ∷ l) h = ground (arith, tx_of-has_own k l)

tx_of-append :
    (k j : String) (r : ℕ) (l : List (String × ℕ))
    → has_own j l ≡ false
    → tx_of k (l ++ (j, r) ∷ []) ≡ (if str_eq j k then some r else tx_of k l)
unfolding tx_of has_own
tx_of-append k j r [] h = refl
tx_of-append k j r ((i, q) ∷ l) h =
    ground (arith, tx_of-append k j r l, eq_iff i k, eq_iff j k, eq_iff i j)

reference_of-append :
    (q r : ℕ) (k : String) (l : List (ℕ × String))
    → reference_of r l ≡ none
    → reference_of q (l ++ (r, k) ∷ []) ≡ (if r == q then some k else reference_of q l)
unfolding reference_of
reference_of-append q r k [] h = refl
reference_of-append q r k ((i, j) ∷ l) h = ground (arith, reference_of-append q r k l)

has_own-append :
    (k j : String) (r : ℕ) (l : List (String × ℕ))
    → has_own k (l ++ (j, r) ∷ []) ≡ (if has_own k l then true else str_eq j k)
unfolding has_own
has_own-append k j r [] = ground arith
has_own-append k j r ((i, q) ∷ l) = ground (arith, has_own-append k j r l)

-- What a round does to the tables `t`, for a transaction `r` that gets the key `k`.
pub record Added (r : ℕ) (t : Table) (k : String) (u : Table) : Type 0 where
  pub linked : IsLinked u
  pub extends : Extends t u
  pub found : tx_of k u.txs ≡ some r
  pub own : (j : String) → has_own j u.txs ≡ true → (has_own j t.txs ≡ true) ⊎ (k ≡ j)

module _ (r : ℕ) (t : Table) (linked : IsLinked t) where
  abbrev grown : String → Table
  grown k = record { references = t.references ++ (r, k) ∷ []; txs = t.txs ++ (k, r) ∷ [] }

  module _ (k : String) (free : has_own k t.txs ≡ false)
      (new : reference_of r t.references ≡ none) where
    grown_found : tx_of k (t.txs ++ (k, r) ∷ []) ≡ some r
    grown_found = rw (tx_of-append k k r t.txs free, eq_refl k) refl

    grown-Extends : Extends t (grown k)
    grown-Extends j q e =
        rw (tx_of-append j k r t.txs free)
          (ground (arith, e, eq_iff k j, tx_of-has_own k t.txs free))

    grown-IsLinked : IsLinked (grown k)
    grown-IsLinked q j e = elim (Bool-cases (r == q)) [
      | inl same ↦
          let same_key : k ≡ j = ground (arith, reference_of-append q r k t.references new) in
          let same_object : r ≡ q = ground arith in
          subst (λ j'. tx_of j' (t.txs ++ (k, r) ∷ []) ≡ some q) same_key
            (grown_found ∙ ap some same_object)
      | inr other ↦
          grown-Extends j q
            (linked q j (ground (arith, reference_of-append q r k t.references new)))
    ]

    grown-Added : Added r t k (grown k)
    grown-Added = record {
      linked = grown-IsLinked;
      extends = grown-Extends;
      found = grown_found;
      own = λ j e. ground (arith, has_own-append j k r t.txs, e, eq_iff k j);
    }

  add_tx-Added : (heap : Heap) → Added r t (add_tx heap r t).0 (add_tx heap r t).1
  add_tx-Added heap = elim (Option-cases (reference_of r t.references)) [
    | inl new ↦
        rw (new, add_tx)
          (grown-Added (free_reference (heap r).id t.txs) (has_own-free_reference (heap r).id t.txs)
            new)
    | inr (k, old) ↦
        rw (old, add_tx)
          (record {
            linked = linked;
            extends = λ j q e. e;
            found = linked r k old;
            own = λ j e. inl e;
          })
  ]

-- The key of an entry leads to the object of its notification, or there is neither.
abbrev pub Leads : List (String × ℕ) → Option ℕ → Option String → Type 0
Leads txs none none = Unit
Leads txs (some r) (some k) = tx_of k txs ≡ some r
Leads txs _ _ = ⊥

abbrev pub IsEntry : List (String × ℕ) → Notification → Entry → Type 0
IsEntry txs n e = (e ≡ entry_of n e.tx_id) × Leads txs n.tx e.tx_id

abbrev pub AreEntries : List (String × ℕ) → List Notification → List Entry → Type 0
AreEntries txs [] [] = Unit
AreEntries txs (n ∷ ns) (e ∷ es) = IsEntry txs n e × AreEntries txs ns es
AreEntries txs _ _ = ⊥

abbrev pub names_key : String → Option String → Bool
names_key j none = false
names_key j (some k) = str_eq k j

abbrev pub mentions : String → List Entry → Bool
mentions j [] = false
mentions j (e ∷ es) = if names_key j e.tx_id then true else mentions j es

-- What encoding the notifications `ns` from the table `t` gives.
pub record Encoded (t : Table) (ns : List Notification) (es : List Entry) (u : Table) : Type 0 where
  pub linked : IsLinked u
  pub extends : Extends t u
  pub entries : AreEntries u.txs ns es
  pub own :
      (j : String) → has_own j u.txs ≡ true → (has_own j t.txs ≡ true) ⊎ (mentions j es ≡ true)

-- The same for one notification with the transaction `x`.
record EncodedOne (t : Table) (n : Notification) (x : Option ℕ) (e : Entry) (u : Table)
    : Type 0 where
  linked : IsLinked u
  extends : Extends t u
  copied : e ≡ entry_of n e.tx_id
  leads : Leads u.txs x e.tx_id
  own :
      (j : String)
      → has_own j u.txs ≡ true
      → (has_own j t.txs ≡ true) ⊎ (names_key j e.tx_id ≡ true)

own_key : (j k : String) {B : Type 0} → B ⊎ (k ≡ j) → B ⊎ (str_eq k j ≡ true)
own_key j k (inl b) = inl b
own_key j k (inr e) = inr ((eq_iff k j).1 e)

encode_with-EncodedOne :
    (heap : Heap) (n : Notification) (x : Option ℕ) (t : Table)
    → IsLinked t
    → EncodedOne t n x (encode_with heap n x t).0 (encode_with heap n x t).1
unfolding encode_with
encode_with-EncodedOne heap n none t h = record {
  linked = h;
  extends = λ k r e. e;
  copied = refl;
  leads = tt;
  own = λ j e. inl e;
}
encode_with-EncodedOne heap n (some r) t h =
    let a = add_tx-Added r t h heap in
    record {
      linked = a.linked;
      extends = a.extends;
      copied = refl;
      leads = a.found;
      own = λ j e. own_key j (add_tx heap r t).0 (a.own j e);
    }

Leads-extend :
    (t u : Table) (x : Option ℕ) (k : Option String)
    → Extends t u
    → Leads t.txs x k
    → Leads u.txs x k
Leads-extend t u none none h l = tt
Leads-extend t u none (some k) h l = l
Leads-extend t u (some r) none h l = l
Leads-extend t u (some r) (some k) h l = h k r l

pub encode_all-Encoded :
    (heap : Heap) (ns : List Notification) (t : Table)
    → IsLinked t
    → Encoded t ns (encode_all heap ns t).0 (encode_all heap ns t).1
unfolding encode_all
encode_all-Encoded heap [] t h = record {
  linked = h;
  extends = λ k r e. e;
  entries = tt;
  own = λ j e. inl e;
}
encode_all-Encoded heap (n ∷ ns) t h =
    let one = encode_with-EncodedOne heap n n.tx t h in
    let rest = encode_all-Encoded heap ns (encode_one heap n t).1 one.linked in
    record {
      linked = rest.linked;
      extends = λ k r e. rest.extends k r (one.extends k r e);
      entries = (
        (
          one.copied,
          Leads-extend (encode_one heap n t).1 (encode_all heap ns (encode_one heap n t).1).1 n.tx
              (encode_one heap n t).0.tx_id rest.extends one.leads,
        ),
        rest.entries,
      );
      own = λ j e. ground (arith, rest.own j e, one.own j);
    }
