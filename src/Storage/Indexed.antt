-- ===== src/Storage/Indexed.antt =====
-- A table of rows with an index by a unique name, as crates/geonosis-storage/src/memory.rs keeps for
-- realms, users, clients and organizations.
use geonosis.Storage.Errors.{not_found, fetch}
use geonosis.Base.{
  ℕ, lookup-insert_self, insert-cases, insert_other, remove-cases, remove_other, ok, ok_or, ◌>>=◌,
  ◌↔◌, Option, none, some, Map, lookup, insert, remove, Eq, ◌==◌, ==_iff, Bool-cases, ◌≡◌, refl,
  sym, ap, ◌∙◌, arith, inl, inr,
}

-- An entity is stored under its key, and the index has its ident under its name.
pub record Naming (K N I E : Type 0) : Type 0 where
  pub key : E → K
  pub name : E → N
  pub ident : E → I
  pub at : N → I → K
  pub of : K → I
  pub of-key : (x : E) → of (key x) ≡ ident x
  pub at-key : (x : E) → at (name x) (ident x) ≡ key x

pub some_inj : {A : Type 0} {a b : A} → some a ≡ some b → a ≡ b
some_inj q = cc

-- A lookup through an index, read backwards and forwards.
pub found_by :
    {I E : Type 0} (o : Option I) (f : I → Option E) (x : E)
    → (ok_or o not_found >>= λ i. ok_or (f i) not_found) ≡ ok x
    → (i : I) × (o ≡ some i) × (f i ≡ some x)
found_by none f x q = cc
found_by (some i) f x q = (i, refl, ground arith)

finds :
    {I E : Type 0} (o : Option I) (f : I → Option E) (i : I) (x : E)
    → o ≡ some i
    → f i ≡ some x
    → (ok_or o not_found >>= λ j. ok_or (f j) not_found) ≡ ok x
finds o f i x p q = rw (p, q) refl

module _ {K N I E : Type 0} ⦃ek : Eq K⦄ ⦃en : Eq N⦄ (by : Naming K N I E) where
  -- Rows stand under their own keys, each row is found by its name, and each name of the index leads
  -- to a row of that name.
  pub record IsIndexed (rows : Map K E) (index : Map N I) : Type 0 where
    pub own : (k : K) (x : E) → lookup k rows ≡ some x → by.key x ≡ k
    pub listed :
        (k : K) (x : E) → lookup k rows ≡ some x → lookup (by.name x) index ≡ some (by.ident x)
    pub live :
        (n : N) (i : I)
        → lookup n index ≡ some i
        → (x : E) × (lookup (by.at n i) rows ≡ some x) × (by.name x ≡ n)

  -- Rows of one name are one row.
  pub name_unique :
      (rows : Map K E) (index : Map N I)
      → IsIndexed rows index
      → (k j : K) (x y : E) → lookup k rows ≡ some x
      → lookup j rows ≡ some y
      → by.name x ≡ by.name y
      → k ≡ j
  name_unique rows index h k j x y at_k at_j q =
      let idents : by.ident x ≡ by.ident y =
        some_inj (sym (h.listed k x at_k) ∙ ap (λ n. lookup n index) q ∙ h.listed j y at_j) in
      sym (h.own k x at_k)
      ∙ sym (by.at-key x)
      ∙ ap (λ n. by.at n (by.ident x)) q
      ∙ ap (λ i. by.at (by.name y) i) idents
      ∙ by.at-key y
      ∙ h.own j y at_j

  -- A new row under a free key and a free name.
  pub insert-IsIndexed :
      (rows : Map K E) (index : Map N I) (x : E)
      → IsIndexed rows index
      → lookup (by.key x) rows ≡ none
      → lookup (by.name x) index ≡ none
      → IsIndexed (insert (by.key x) x rows) (insert (by.name x) (by.ident x) index)
  insert-IsIndexed rows index x h no_row no_name = record {
    own = λ k y r. elim (insert-cases (by.key x) k x y rows r) [
      | inl (at_key, same) ↦ ap by.key (sym same) ∙ at_key
      | inr (other, old) ↦ h.own k y old
    ];
    listed = λ k y r. elim (insert-cases (by.key x) k x y rows r) [
      | inl (at_key, same) ↦ rw (← same) (lookup-insert_self (by.name x) (by.ident x) index)
      | inr (other, old) ↦
          insert_other (by.name x) (by.name y) (by.ident x) index
            (λ q. ground (arith, h.listed k y old, ap (λ n. lookup n index) q))
          ∙ h.listed k y old
    ];
    live = λ n i l. elim (insert-cases (by.name x) n (by.ident x) i index l) [
      | inl (at_name, same) ↦
          (x, rw (← at_name, ← same, by.at-key x) (lookup-insert_self (by.key x) x rows), at_name)
      | inr (other, old) ↦
          let (y, row, named) = h.live n i old in
          (
            y,
            insert_other (by.key x) (by.at n i) x rows
                  (λ q. ground (arith, row, ap (λ k. lookup k rows) q))
                ∙ row,
            named,
          )
    ];
  }

  -- A row that is changed and keeps its key and its name.
  pub replace-IsIndexed :
      (rows : Map K E) (index : Map N I) (x y : E)
      → IsIndexed rows index
      → lookup (by.key y) rows ≡ some x
      → by.name y ≡ by.name x
      → IsIndexed (insert (by.key y) y rows) index
  replace-IsIndexed rows index x y h row same_name = record {
    own = λ k z r. elim (insert-cases (by.key y) k y z rows r) [
      | inl (at_key, same) ↦ ap by.key (sym same) ∙ at_key
      | inr (other, old) ↦ h.own k z old
    ];
    listed = λ k z r. elim (insert-cases (by.key y) k y z rows r) [
      | inl (at_key, same) ↦
          rw (← same, same_name)
            (h.listed (by.key y) x row
              ∙ ap some (sym (by.of-key x) ∙ ap by.of (h.own (by.key y) x row) ∙ by.of-key y))
      | inr (other, old) ↦ h.listed k z old
    ];
    live = λ n i l.
        let (z, at_row, named) = h.live n i l in
        elim (Bool-cases (by.key y == by.at n i)) [
          | inl same ↦
              let here : by.key y ≡ by.at n i = (==_iff (by.key y) (by.at n i)).0 same in
              let is_x : z ≡ x = ground (arith, at_row, row, ap (λ k. lookup k rows) here) in
              (
                y,
                ap (λ k. lookup k (insert (by.key y) y rows)) (sym here)
                    ∙ lookup-insert_self (by.key y) y rows,
                same_name ∙ ap by.name (sym is_x) ∙ named,
              )
          | inr other ↦ (
            z,
            insert_other (by.key y) (by.at n i) y rows
                  (λ q. ground (arith, ==_iff (by.key y) (by.at n i)))
                ∙ at_row,
            named,
          )
        ];
  }

  -- A row that is removed together with its name.
  pub remove-IsIndexed :
      (rows : Map K E) (index : Map N I) (k : K) (n : N) (x : E)
      → IsIndexed rows index
      → lookup k rows ≡ some x
      → by.name x ≡ n
      → IsIndexed (remove k rows) (remove n index)
  remove-IsIndexed rows index at n x h row is_n = record {
    own = λ k y r. h.own k y (remove-cases at k y rows r).1;
    listed = λ k y r.
        let (other, old) = remove-cases at k y rows r in
        remove_other n (by.name y) index
          (λ q. other (name_unique rows index h at k x y row old (is_n ∙ q)))
        ∙ h.listed k y old;
    live = λ m i l.
        let (other, old) = remove-cases n m i index l in
        let (y, at_row, named) = h.live m i old in
        let is_at : at ≡ by.at m i → x ≡ y =
          λ q. ground (arith, at_row, row, ap (λ k. lookup k rows) q) in
        (
          y,
          remove_other at (by.at m i) rows (λ q. other (sym is_n ∙ ap by.name (is_at q) ∙ named))
              ∙ at_row,
          named,
        );
  }

  -- A row that is changed and given a free name, its old name removed.
  pub rename-IsIndexed :
      (rows : Map K E) (index : Map N I) (n : N) (x y : E)
      → IsIndexed rows index
      → lookup (by.key y) rows ≡ some x
      → by.name x ≡ n
      → lookup (by.name y) index ≡ none
      → IsIndexed (insert (by.key y) y rows) (insert (by.name y) (by.ident y) (remove n index))
  rename-IsIndexed rows index n x y h row is_n free = record {
    own = λ k z r. elim (insert-cases (by.key y) k y z rows r) [
      | inl (at_key, same) ↦ ap by.key (sym same) ∙ at_key
      | inr (other, old) ↦ h.own k z old
    ];
    listed = λ k z r. elim (insert-cases (by.key y) k y z rows r) [
      | inl (at_key, same) ↦
          rw (← same) (lookup-insert_self (by.name y) (by.ident y) (remove n index))
      | inr (other, old) ↦
          insert_other (by.name y) (by.name z) (by.ident y) (remove n index)
            (λ q. ground (arith, h.listed k z old, free, ap (λ m. lookup m index) q))
          ∙ remove_other n (by.name z) index
              (λ q. other (name_unique rows index h (by.key y) k x z row old (is_n ∙ q)))
          ∙ h.listed k z old
    ];
    live = λ m i l. elim (insert-cases (by.name y) m (by.ident y) i (remove n index) l) [
      | inl (at_name, same) ↦
          (y, rw (← at_name, ← same, by.at-key y) (lookup-insert_self (by.key y) y rows), at_name)
      | inr (other, kept) ↦
          let (not_n, old) = remove-cases n m i index kept in
          let (z, at_row, named) = h.live m i old in
          let is_x : by.key y ≡ by.at m i → x ≡ z =
            λ q. ground (arith, at_row, row, ap (λ k. lookup k rows) q) in
          (
            z,
            insert_other (by.key y) (by.at m i) y rows
                  (λ q. not_n (sym is_n ∙ ap by.name (is_x q) ∙ named))
                ∙ at_row,
            named,
          )
    ];
  }

  -- A lookup by name is the search for the row of that name.
  pub by_name_iff :
      (rows : Map K E) (index : Map N I) (n : N) (x : E)
      → IsIndexed rows index
      → (fetch n index >>= λ i. fetch (by.at n i) rows) ≡ ok x
        ↔ ((lookup (by.key x) rows ≡ some x) × (by.name x ≡ n))
  by_name_iff rows index n x h = (
    λ q.
        let (i, at_n, at_row) = found_by (lookup n index) (λ i. lookup (by.at n i) rows) x q in
        let (y, at_row', named) = h.live n i at_n in
        let same : y ≡ x = some_inj (sym at_row' ∙ at_row) in
        (
          ap (λ k. lookup k rows) (h.own (by.at n i) x at_row) ∙ at_row,
          ap by.name (sym same) ∙ named,
        ),
    λ (at_row, named).
        let at_n : lookup n index ≡ some (by.ident x) =
          ap (λ m. lookup m index) (sym named) ∙ h.listed (by.key x) x at_row in
        finds (lookup n index) (λ i. lookup (by.at n i) rows) (by.ident x) x at_n
          (ap (λ m. lookup (by.at m (by.ident x)) rows) (sym named)
            ∙ ap (λ k. lookup k rows) (by.at-key x)
            ∙ at_row),
  )

-- Two rows of one realm and one text have one name, where they have one key.
pub same_name :
    {B : Type 0} {r s i j : ℕ} {a b : B}
    → ◌≡◌ {A = ℕ × ℕ} (r, i) (s, j)
    → a ≡ b
    → ◌≡◌ {A = ℕ × B} (r, a) (s, b)
same_name p q = rw (ap (λ (k : ℕ × ℕ). k.0) p, q) refl
