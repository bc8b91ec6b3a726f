-- ===== src/Relational/Resource/Visibility.antt =====
-- What a Subject may see of a relational resource.
use text.Mathlib.TextPositions.{eq_refl}
use agent_verification_proto.Base.{
  IsOk, IsOk-bind, IsOk-each, IsOk-check, IsOk-weaken, All-weaken, String, Bool, true, false, List,
  [], ◌∷◌, ◌≡◌, refl, subst, any, ◌==◌, eq_iff, contains, All, if◌then◌else◌, ok, arith,
}
use agent_verification_proto.Base.Dict.{Dict}
use agent_verification_proto.Base.Sorting.{sort_by-All}
use agent_verification_proto.Relational.Values.{
  visibility_error, RelationalValue, RelationalRow, column_of, from_mapping, pick_columns, State,
}
use agent_verification_proto.Relational.Manifest.{RelationDefinition}
use agent_verification_proto.Relational.States.{item}
use agent_verification_proto.Relational.Resource.{
  RelationalResource, ensure_live, selected_columns, is_pair, view_rows, view_relation,
  view_relations, subject_view,
}

abbrev is_among : String → String → List (String × String) → Bool
is_among relation_id column pairs = any (is_pair (relation_id, column)) pairs

module _ (Q : String → Type 0) where
  -- Every column of a row has the property.
  abbrev ColumnsHave : Dict RelationalValue → Type 0
  ColumnsHave values = All (λ e. Q (column_of e)) values

  pick_columns-ColumnsHave :
      (columns : List String) (values : Dict RelationalValue)
      → All Q columns
      → IsOk ColumnsHave (pick_columns columns values)
  unfolding pick_columns
  pick_columns-ColumnsHave [] values h = tt
  pick_columns-ColumnsHave (column ∷ columns) values h =
      ground (arith, pick_columns-ColumnsHave columns values h.1, h)

  view_rows-ColumnsHave :
      (columns : List String) (rows : List RelationalRow)
      → All Q columns
      → IsOk (All (λ row. ColumnsHave row.values)) (view_rows columns rows)
  unfolding view_rows from_mapping
  view_rows-ColumnsHave columns [] h = tt
  view_rows-ColumnsHave columns (row ∷ rows) h =
      IsOk-bind ColumnsHave (All (λ row. ColumnsHave row.values)) (pick_columns columns row.values)
        _ (pick_columns-ColumnsHave columns row.values h)
        (λ picked p.
          IsOk-bind (All (λ row. ColumnsHave row.values)) (All (λ row. ColumnsHave row.values))
            (view_rows columns rows) _ (view_rows-ColumnsHave columns rows h)
            (λ rest q. (sort_by-All column_of (λ e. Q (column_of e)) picked p, q)))

chosen-All :
    (P : String → Type 0) (chosen present : Bool) (column : String) (rest : List String)
    → (chosen ≡ true → P column)
    → All P rest
    → All P (if chosen then (if present then rest else column ∷ rest) else rest)
chosen-All P true true column rest p h = h
chosen-All P true false column rest p h = (p refl, h)
chosen-All P false present column rest p h = h

selected_columns-All :
    (relation_id : String) (pairs : List (String × String))
    → All (λ column. is_among relation_id column pairs ≡ true) (selected_columns relation_id pairs)
unfolding selected_columns
selected_columns-All relation_id [] = tt
selected_columns-All relation_id ((r, column) ∷ pairs) =
    let later =
      All-weaken (λ c. is_among relation_id c pairs ≡ true)
        (λ c. is_among relation_id c ((r, column) ∷ pairs) ≡ true) (λ c h. ground (arith, h))
        (selected_columns relation_id pairs) (selected_columns-All relation_id pairs) in
    chosen-All (λ c. is_among relation_id c ((r, column) ∷ pairs) ≡ true) (r == relation_id)
      (contains column (selected_columns relation_id pairs)) column
      (selected_columns relation_id pairs)
      (λ e. ground (arith, e, eq_iff r relation_id, eq_iff relation_id r, eq_refl column)) later

-- Every column of an image of a state is among these pairs.
abbrev pub IsWithin : (String → String → Type 0) → State → Type 0
IsWithin Q view =
    All (λ entry. All (λ row. All (λ e. Q entry.0 (column_of e)) row.values) entry.1) view

module _ (allowed : List (String × String)) (state : State) where
  abbrev Allowed : String → String → Type 0
  Allowed relation_id column = is_among relation_id column allowed ≡ true

  view_relation-IsWithin :
      (relation_id : String) (columns : List String) (rest : State)
      → All (Allowed relation_id) columns
      → IsWithin Allowed rest
      → IsOk (IsWithin Allowed) (view_relation relation_id columns state rest)
  view_relation-IsWithin relation_id [] rest h k = k
  view_relation-IsWithin relation_id (c ∷ cs) rest h k =
      IsOk-each (IsWithin Allowed) (item relation_id state) _ (λ rows.
        IsOk-bind (All (λ row. ColumnsHave (Allowed relation_id) row.values)) (IsWithin Allowed)
          (view_rows (c ∷ cs) rows) _ (view_rows-ColumnsHave (Allowed relation_id) (c ∷ cs) rows h)
          (λ shown p. (p, k)))

  view_relations-IsWithin :
      (relations : List RelationDefinition)
      → IsOk (IsWithin Allowed) (view_relations relations allowed state)
  unfolding view_relations
  view_relations-IsWithin [] = tt
  view_relations-IsWithin (r ∷ rs) =
      IsOk-bind (IsWithin Allowed) (IsWithin Allowed) (view_relations rs allowed state) _
        (view_relations-IsWithin rs)
        (λ rest h.
          view_relation-IsWithin r.relation_id (selected_columns r.relation_id allowed) rest
            (selected_columns-All r.relation_id allowed) h)

not_private :
    (relation_id column : String) (private_columns allowed : List (String × String))
    → any (λ p. any (is_pair p) allowed) private_columns ≡ false
    → is_among relation_id column allowed ≡ true
    → is_among relation_id column private_columns ≡ false
not_private relation_id column [] allowed h k = refl
not_private relation_id column ((r, c) ∷ rest) allowed h k = ground (
  arith,
  h,
  k,
  not_private relation_id column rest allowed,
  eq_iff relation_id r,
  eq_iff column c,
)

IsWithin-weaken :
    (P Q : String → String → Type 0)
    → ((relation_id column : String) → P relation_id column → Q relation_id column)
    → (view : State) → IsWithin P view
    → IsWithin Q view
IsWithin-weaken P Q f view h =
    All-weaken (λ entry. All (λ row. All (λ e. P entry.0 (column_of e)) row.values) entry.1)
      (λ entry. All (λ row. All (λ e. Q entry.0 (column_of e)) row.values) entry.1)
      (λ entry.
        All-weaken (λ row. All (λ e. P entry.0 (column_of e)) row.values)
          (λ row. All (λ e. Q entry.0 (column_of e)) row.values)
          (λ row.
            All-weaken (λ e. P entry.0 (column_of e)) (λ e. Q entry.0 (column_of e))
              (λ e. f entry.0 (column_of e)) row.values)
          entry.1)
      view h

-- Authorized, and not private
abbrev pub IsVisible : List (String × String) → List (String × String) → String → String → Type 0
IsVisible authorized private_columns relation_id column =
    (is_among relation_id column authorized ≡ true)
    × (is_among relation_id column private_columns ≡ false)

-- Every column that a Subject sees is one that it was authorized for, and none that is private to the
-- evaluator.
pub subject_view-IsWithin :
    (authorized : List (String × String)) (r : RelationalResource) (view : State)
    → subject_view authorized r ≡ ok view
    → IsWithin (IsVisible authorized r.private_columns) view
unfolding subject_view
subject_view-IsWithin authorized r view e =
    let Q = IsVisible authorized r.private_columns in
    subst (IsOk (IsWithin Q)) e (
      IsOk-each (IsWithin Q) (ensure_live r) _ (λ _.
        IsOk-check (IsWithin Q) (any (λ p. any (is_pair p) authorized) r.private_columns)
          visibility_error (view_relations r.manifest.relations authorized r.state)
          (λ hidden.
            IsOk-weaken (IsWithin (Allowed authorized r.state)) (IsWithin Q)
              (view_relations r.manifest.relations authorized r.state)
              (IsWithin-weaken (Allowed authorized r.state) Q (λ relation_id column h.
                (h, not_private relation_id column r.private_columns authorized hidden h)))
              (view_relations-IsWithin authorized r.state r.manifest.relations))))
