-- ===== src/Relational/Diff/Rows.antt =====
-- The rows of two images whose difference lists no change
use agent_verification_proto.Base.{
  IsOk, All, String, Bool, true, false, Option, none, some, List, [], ◌∷◌, ◌≡◌, refl, sym, ap,
  subst, ◌∙◌, ◌==◌, Bool-cases, any, map, contains, is_unique, ◌⊎◌, inl, inr, Result, ok, raise,
  ◌>>=◌, arith,
}
use agent_verification_proto.Base.Dict.{Dict, lookup, insert, lookup-insert, lookup-insert_self}
use agent_verification_proto.Base.Sorting.{sort_by}
use agent_verification_proto.Base.Json.{Value}
use agent_verification_proto.Relational.Values.{
  RelationalError, RelationalValue, RelationalRow, same_values, State, StateImage,
}
use agent_verification_proto.Relational.Diff.Equality.{same_values_sound}
use agent_verification_proto.Relational.Manifest.{RelationDefinition}
use agent_verification_proto.Relational.States.{item}
use agent_verification_proto.Relational.Resource.{RelationalResource}
use agent_verification_proto.Relational.Diff.{RelationalDiff, row_key_bytes, rows_by_key, diff}
use agent_verification_proto.Relational.Diff.Completeness.{IsSame, IsUnchanged, diff-IsUnchanged}

Result-cases :
    {A : Type 0} (m : Result RelationalError A)
    → ((a : A) × (m ≡ ok a)) ⊎ ((e : RelationalError) × (m ≡ raise e))
Result-cases (ok a) = inl (a, refl)
Result-cases (raise e) = inr (e, refl)

-- One of the rows has these values.
abbrev pub IsHeld : Dict RelationalValue → List RelationalRow → Type 0
IsHeld values [] = true ≡ false
IsHeld values (row ∷ rows) = (values ≡ row.values) ⊎ IsHeld values rows

IsHeld-any :
    (f : RelationalRow → Bool) (values : Dict RelationalValue) (rows : List RelationalRow)
    → ((row : RelationalRow) → f row ≡ true → values ≡ row.values)
    → any f rows ≡ true
    → IsHeld values rows
IsHeld-any f values [] sound h = absurd (ground (arith, h))
IsHeld-any f values (row ∷ rows) sound h = elim (Bool-cases (f row)) [
  | inl here ↦ inl (sound row here)
  | inr there ↦ inr (IsHeld-any f values rows sound (ground (arith, h, there)))
]

-- Both states have the same rows in a relation, in any order.
abbrev pub HasSameRows : State → State → RelationDefinition → Type 0
HasSameRows before after r =
    (old : List RelationalRow) × (new : List RelationalRow) × (item r.relation_id before ≡ ok old)
    × (item r.relation_id after ≡ ok new)
    × All (λ x. IsHeld x.values new) old
    × All (λ y. IsHeld y.values old) new

module _ (canonical : Value → String) where
  abbrev or_none : Result RelationalError String → String
  or_none (ok key) = key
  or_none (raise e) = ""

  -- The key of a row, which is empty where it has none.
  abbrev pub key_bytes : RelationDefinition → RelationalRow → String
  key_bytes r row = or_none (row_key_bytes canonical r row)

  abbrev pub row_keys : RelationDefinition → List RelationalRow → List String
  row_keys r rows = map (key_bytes r) rows

  -- No two rows of the relation have the same key.
  abbrev pub IsKeyed : State → RelationDefinition → Type 0
  IsKeyed state r = IsOk (λ rows. is_unique (row_keys r rows) ≡ true) (item r.relation_id state)

  module _ (r : RelationDefinition) where
    rows_by_key_step :
        (row : RelationalRow) (rows : List RelationalRow) (held done : Dict RelationalRow)
        → rows_by_key canonical r (row ∷ rows) held ≡ ok done
        → rows_by_key canonical r rows (insert (key_bytes r row) row held) ≡ ok done
    unfolding rows_by_key
    rows_by_key_step row rows held done h = elim (Result-cases (row_key_bytes canonical r row)) [
      | inl (key, e) ↦ rw e (sym (rw e refl) ∙ h)
      | inr (e, p) ↦ absurd (ground (arith, p, h))
    ]

    -- A key that no row has stays with what was there.
    lookup_other :
        (rows : List RelationalRow) (held done : Dict RelationalRow) (k : String)
        → rows_by_key canonical r rows held ≡ ok done
        → contains k (row_keys r rows) ≡ false
        → lookup k done ≡ lookup k held
    unfolding rows_by_key
    lookup_other [] held done k h free = ground (arith, h)
    lookup_other (row ∷ rows) held done k h free = ground (
      arith,
      free,
      lookup_other rows (insert (key_bytes r row) row held) done k
          (rows_by_key_step row rows held done h),
      lookup-insert (key_bytes r row) k row held,
    )

    -- Each row stands under its key.
    lookup-rows_by_key :
        (rows : List RelationalRow) (held done : Dict RelationalRow)
        → rows_by_key canonical r rows held ≡ ok done
        → is_unique (row_keys r rows) ≡ true
        → All (λ row. lookup (key_bytes r row) done ≡ some row) rows
    lookup-rows_by_key [] held done h u = tt
    lookup-rows_by_key (row ∷ rows) held done h u =
        let step = rows_by_key_step row rows held done h in
        (
          lookup_other rows (insert (key_bytes r row) row held) done (key_bytes r row) step
                (ground (arith, u))
              ∙ lookup-insert_self (key_bytes r row) row held,
          lookup-rows_by_key rows (insert (key_bytes r row) row held) done step (ground (arith, u)),
        )

    placed_lem :
        (first row : RelationalRow) (k : String) (held : Dict RelationalRow)
        → (key_bytes r first == k) ≡ true
        → lookup k (insert (key_bytes r first) first held) ≡ some row
        → first ≡ row
    placed_lem first row k held here placed =
        ground (arith, placed, lookup-insert (key_bytes r first) k first held, here)

    -- What stands under a key is one of the rows, or was there.
    any-rows_by_key :
        (f : RelationalRow → Bool) (rows : List RelationalRow) (held done : Dict RelationalRow)
        (k : String) (row : RelationalRow)
        → rows_by_key canonical r rows held ≡ ok done
        → lookup k done ≡ some row
        → f row ≡ true
        → (any f rows ≡ true) ⊎ (lookup k held ≡ some row)
    unfolding rows_by_key
    any-rows_by_key f [] held done k row h found p = inr (ground (arith, h, found))
    any-rows_by_key f (first ∷ rows) held done k row h found p =
        elim (any-rows_by_key f rows (insert (key_bytes r first) first held) done k row
          (rows_by_key_step first rows held done h) found p) [
            | inl later ↦ inl (ground (arith, later))
            | inr placed ↦ elim (Bool-cases (key_bytes r first == k)) [
              | inl here ↦ inl (ground (arith, ap f (placed_lem first row k held here placed), p))
              | inr there ↦
                  inr
                    (ground (arith, placed, lookup-insert (key_bytes r first) k first held, there))
            ]
          ]

    -- A row of the first table whose values the second has under the same key has them in a row.
    matched :
        (rows : List RelationalRow) (done : Dict RelationalRow) (row : RelationalRow)
        (found : Option RelationalRow)
        → rows_by_key canonical r rows [] ≡ ok done
        → lookup (key_bytes r row) done ≡ found
        → IsSame (some row) found
        → IsHeld row.values rows
    unfolding lookup
    matched rows done row none h at same = absurd (ground (arith, same))
    matched rows done row (some other) h at same =
        elim (any-rows_by_key (λ y. same_values row.values y.values) rows [] done (key_bytes r row)
          other h at same) [
            | inl here ↦
                IsHeld-any (λ y. same_values row.values y.values) row.values rows
                  (λ y. same_values_sound row.values y.values) here
            | inr there ↦ absurd (ground (arith, there))
          ]

    covered :
        (rows : List RelationalRow) (done : Dict RelationalRow) (row : RelationalRow)
        (found : Option RelationalRow)
        → rows_by_key canonical r rows [] ≡ ok done
        → lookup (key_bytes r row) done ≡ found
        → IsSame found (some row)
        → IsHeld row.values rows
    unfolding lookup
    covered rows done row none h at same = absurd (ground (arith, same))
    covered rows done row (some other) h at same =
        elim (any-rows_by_key (λ x. same_values x.values row.values) rows [] done (key_bytes r row)
          other h at same) [
            | inl here ↦
                IsHeld-any (λ x. same_values x.values row.values) row.values rows
                  (λ x p. sym (same_values_sound x.values row.values p)) here
            | inr there ↦ absurd (ground (arith, there))
          ]

    rows_within :
        (old new : Dict RelationalRow) (xs ys : List RelationalRow)
        → rows_by_key canonical r ys [] ≡ ok new
        → ((k : String) → IsSame (lookup k old) (lookup k new))
        → All (λ x. lookup (key_bytes r x) old ≡ some x) xs
        → All (λ x. IsHeld x.values ys) xs
    rows_within old new [] ys h same found = tt
    rows_within old new (x ∷ xs) ys h same found = (
      matched ys new x (lookup (key_bytes r x) new) h refl
          (subst (λ o. IsSame o (lookup (key_bytes r x) new)) found.0 (same (key_bytes r x))),
      rows_within old new xs ys h same found.1,
    )

    rows_covered :
        (old new : Dict RelationalRow) (xs ys : List RelationalRow)
        → rows_by_key canonical r xs [] ≡ ok old
        → ((k : String) → IsSame (lookup k old) (lookup k new))
        → All (λ y. lookup (key_bytes r y) new ≡ some y) ys
        → All (λ y. IsHeld y.values xs) ys
    rows_covered old new xs [] h same found = tt
    rows_covered old new xs (y ∷ ys) h same found = (
      covered xs old y (lookup (key_bytes r y) old) h refl
          (subst (λ o. IsSame (lookup (key_bytes r y) old) o) found.0 (same (key_bytes r y))),
      rows_covered old new xs ys h same found.1,
    )

    tables-HasSameRows :
        (before after : State) (old new : Result RelationalError (List RelationalRow))
        (olds news : Dict RelationalRow)
        → item r.relation_id before ≡ old
        → item r.relation_id after ≡ new
        → IsOk (λ rows. is_unique (row_keys r rows) ≡ true) old
        → IsOk (λ rows. is_unique (row_keys r rows) ≡ true) new
        → (old >>= λ rows. rows_by_key canonical r rows []) ≡ ok olds
        → (new >>= λ rows. rows_by_key canonical r rows []) ≡ ok news
        → ((k : String) → IsSame (lookup k olds) (lookup k news))
        → HasSameRows before after r
    tables-HasSameRows before after (raise e) new olds news b a u v p q same =
        absurd (ground (arith, p))
    tables-HasSameRows before after (ok xs) (raise e) olds news b a u v p q same =
        absurd (ground (arith, q))
    tables-HasSameRows before after (ok xs) (ok ys) olds news b a u v p q same = (
      xs,
      ys,
      b,
      a,
      rows_within olds news xs ys q same (lookup-rows_by_key xs [] olds p u),
      rows_covered olds news xs ys p same (lookup-rows_by_key ys [] news q v),
    )

  All-HasSameRows :
      (rs : List RelationDefinition) (before after : State)
      → All (IsKeyed before) rs
      → All (IsKeyed after) rs
      → All (IsUnchanged canonical before after) rs
      → All (HasSameRows before after) rs
  All-HasSameRows [] before after u v h = tt
  All-HasSameRows (r ∷ rs) before after u v ((olds, news, p, q, same), rest) = (
    tables-HasSameRows r before after (item r.relation_id before) (item r.relation_id after) olds
        news refl refl u.0 v.0 p q same,
    All-HasSameRows rs before after u.1 v.1 rest,
  )

  module _ (digest : Value → String) where
    -- If a difference lists no change, and no two rows of a relation have the same key in either image,
    -- then in every relation of the Manifest each row of either image has the values of a row of the
    -- other.
    pub diff-nil :
        (before after : StateImage) (r : RelationalResource) (d : RelationalDiff)
        → All (IsKeyed before.relations) (sort_by (λ r. r.relation_id) r.manifest.relations)
        → All (IsKeyed after.relations) (sort_by (λ r. r.relation_id) r.manifest.relations)
        → diff canonical digest before after r ≡ ok d
        → d.changes ≡ []
        → All
            (HasSameRows before.relations after.relations)
            (sort_by (λ r. r.relation_id) r.manifest.relations)
    diff-nil before after r d u v e h =
        All-HasSameRows (sort_by (λ r. r.relation_id) r.manifest.relations) before.relations
          after.relations u v (diff-IsUnchanged canonical digest before after r d e h)
