-- ===== src/Relational/Diff/Completeness.antt =====
-- The tables of two images whose difference lists no change
use agent_verification_proto.Base.{
  IsOk, IsOk-bind, IsOk-each, IsOk-weaken, All, String, true, false, ◌||◌, Option, none, some, List,
  [], ◌∷◌, ◌++◌, ◌≡◌, refl, sym, subst, ◌∙◌, ◌==◌, eq_iff, contains, Bool-cases, inl, inr, Result,
  ok, raise, raise_if, arith,
}
use agent_verification_proto.Base.Dict.{Dict, lookup}
use agent_verification_proto.Base.Sets.{sorted_set, contains-sorted_set}
use agent_verification_proto.Base.Sorting.{sort_by}
use agent_verification_proto.Base.Json.{Value}
use agent_verification_proto.Relational.Values.{
  RelationalError, compatibility_error, RelationalRow, same_values, State, StateImage, image_digest,
}
use agent_verification_proto.Relational.Manifest.{RelationDefinition}
use agent_verification_proto.Relational.States.{keys_of}
use agent_verification_proto.Relational.Resource.{RelationalResource, ensure_live}
use agent_verification_proto.Relational.Diff.{
  RelationalDiff, key_of, row_change, key_changes, table, is_foreign, is_partial, relation_changes,
  all_changes, diff,
}

-- The rows of one key agree.
abbrev pub IsSame : Option RelationalRow → Option RelationalRow → Type 0
IsSame none none = Unit
IsSame none (some new) = true ≡ false
IsSame (some old) none = true ≡ false
IsSame (some old) (some new) = same_values old.values new.values ≡ true

row_change-IsSame :
    (r : RelationDefinition) (old new : Option RelationalRow)
    → IsOk (λ cs. cs ≡ [] → IsSame old new) (row_change r old new)
row_change-IsSame r none none = λ h. tt
row_change-IsSame r none (some new) =
    IsOk-each (λ cs. cs ≡ [] → true ≡ false) (key_of r new) _ (λ key h. absurd (ground (arith, h)))
row_change-IsSame r (some old) none =
    IsOk-each (λ cs. cs ≡ [] → true ≡ false) (key_of r old) _ (λ key h. absurd (ground (arith, h)))
row_change-IsSame r (some old) (some new) =
    IsOk-each (λ cs. cs ≡ [] → same_values old.values new.values ≡ true) (key_of r old) _
      (λ key h. ground (arith, h))

both_nil : {A : Type 0} (xs ys : List A) → xs ++ ys ≡ [] → (xs ≡ []) × (ys ≡ [])
both_nil [] ys h = (refl, h)
both_nil (x ∷ xs) ys h = absurd (ground (arith, h))

key_agrees :
    (key k : String) (keys : List String) (old new : Dict RelationalRow)
    → IsSame (lookup key old) (lookup key new)
    → (contains k keys ≡ true → IsSame (lookup k old) (lookup k new))
    → contains k (key ∷ keys) ≡ true
    → IsSame (lookup k old) (lookup k new)
key_agrees key k keys old new here later present =
    elim (Bool-cases (key == k)) as (λ _. IsSame (lookup k old) (lookup k new)) [
      | inl p ↦ subst (λ j. IsSame (lookup j old) (lookup j new)) ((eq_iff key k).0 p) here
      | inr p ↦ later (ground (arith, p, present))
    ]

key_changes-IsSame :
    (r : RelationDefinition) (keys : List String) (old new : Dict RelationalRow)
    → IsOk
        (λ cs.
          cs ≡ [] → (k : String) → contains k keys ≡ true → IsSame (lookup k old) (lookup k new))
        (key_changes r keys old new)
unfolding key_changes
key_changes-IsSame r [] old new = λ h k p. absurd (ground (arith, p))
key_changes-IsSame r (key ∷ keys) old new =
    IsOk-bind (λ cs. cs ≡ [] → IsSame (lookup key old) (lookup key new))
      (λ cs.
        cs ≡ []
        → (k : String) → contains k (key ∷ keys) ≡ true
        → IsSame (lookup k old) (lookup k new))
      (row_change r (lookup key old) (lookup key new)) _
      (row_change-IsSame r (lookup key old) (lookup key new))
      (λ here p.
        IsOk-bind
          (λ cs.
            cs ≡ [] → (k : String) → contains k keys ≡ true → IsSame (lookup k old) (lookup k new))
          (λ cs.
            cs ≡ []
            → (k : String) → contains k (key ∷ keys) ≡ true
            → IsSame (lookup k old) (lookup k new))
          (key_changes r keys old new) _ (key_changes-IsSame r keys old new)
          (λ rest q h k present.
            let (nothing_here, nothing_later) = both_nil here rest h in
            key_agrees key k keys old new (p nothing_here) (q nothing_later k) present))

absent_lem :
    {V : Type 0} (k : String) (entries : Dict V)
    → contains k (keys_of entries) ≡ false
    → lookup k entries ≡ none
unfolding lookup
absent_lem k [] h = refl
absent_lem k ((j, v) ∷ entries) h = ground (arith, h, absent_lem k entries)

contains-append :
    (k : String) (xs ys : List String) → contains k (xs ++ ys) ≡ (contains k xs || contains k ys)
contains-append k [] ys = refl
contains-append k (x ∷ xs) ys = ground (arith, contains-append k xs ys)

-- The keys of both tables together are all keys.
everywhere :
    (old new : Dict RelationalRow)
    → ((k : String)
        → contains k (sorted_set (keys_of old ++ keys_of new)) ≡ true
        → IsSame (lookup k old) (lookup k new))
    → (k : String) → IsSame (lookup k old) (lookup k new)
everywhere old new h k =
    elim (Bool-cases (contains k (sorted_set (keys_of old ++ keys_of new))))
      as (λ _. IsSame (lookup k old) (lookup k new)) [
        | inl p ↦ h k p
        | inr p ↦
            let neither : (contains k (keys_of old) || contains k (keys_of new)) ≡ false =
              sym (contains-append k (keys_of old) (keys_of new))
              ∙ sym (contains-sorted_set k (keys_of old ++ keys_of new))
              ∙ p in
            rw
              (
                absent_lem k old (ground (arith, neither)),
                absent_lem k new (ground (arith, neither)),
              )
              tt
      ]

module _ (canonical : Value → String) where
  -- Both states have the same rows in a relation, key by key.
  abbrev pub IsUnchanged : State → State → RelationDefinition → Type 0
  IsUnchanged before after r =
      (old : Dict RelationalRow) × (new : Dict RelationalRow) × (table canonical r before ≡ ok old)
      × (table canonical r after ≡ ok new)
      × ((k : String) → IsSame (lookup k old) (lookup k new))

  IsOk-itself : {A : Type 0} (m : Result RelationalError A) → IsOk (λ a. m ≡ ok a) m
  IsOk-itself (ok a) = refl
  IsOk-itself (raise e) = tt

  relation_changes-IsUnchanged :
      (r : RelationDefinition) (before after : State)
      → IsOk
          (λ cs. cs ≡ [] → IsUnchanged before after r)
          (relation_changes canonical r before after)
  unfolding relation_changes
  relation_changes-IsUnchanged r before after =
      IsOk-bind (λ old. table canonical r before ≡ ok old)
        (λ cs. cs ≡ [] → IsUnchanged before after r) (table canonical r before) _
        (IsOk-itself (table canonical r before))
        (λ old p.
          IsOk-bind (λ new. table canonical r after ≡ ok new)
            (λ cs. cs ≡ [] → IsUnchanged before after r) (table canonical r after) _
            (IsOk-itself (table canonical r after))
            (λ new q.
              let keys = sorted_set (keys_of old ++ keys_of new) in
              IsOk-weaken
                (λ cs.
                  cs ≡ []
                  → (k : String) → contains k keys ≡ true
                  → IsSame (lookup k old) (lookup k new))
                (λ cs. cs ≡ [] → IsUnchanged before after r) (key_changes r keys old new)
                (λ cs h none_listed. (old, new, p, q, everywhere old new (h none_listed)))
                (key_changes-IsSame r keys old new)))

  all_changes-IsUnchanged :
      (rs : List RelationDefinition) (before after : State)
      → IsOk
          (λ cs. cs ≡ [] → All (IsUnchanged before after) rs)
          (all_changes canonical rs before after)
  unfolding all_changes
  all_changes-IsUnchanged [] before after = λ h. tt
  all_changes-IsUnchanged (r ∷ rs) before after =
      IsOk-bind (λ cs. cs ≡ [] → IsUnchanged before after r)
        (λ cs. cs ≡ [] → All (IsUnchanged before after) (r ∷ rs))
        (relation_changes canonical r before after) _ (relation_changes-IsUnchanged r before after)
        (λ here p.
          IsOk-bind (λ cs. cs ≡ [] → All (IsUnchanged before after) rs)
            (λ cs. cs ≡ [] → All (IsUnchanged before after) (r ∷ rs))
            (all_changes canonical rs before after) _ (all_changes-IsUnchanged rs before after)
            (λ rest q h. let (first, later) = both_nil here rest h in (p first, q later)))

  module _ (digest : Value → String) where
    abbrev IsComplete : State → State → List RelationDefinition → RelationalDiff → Type 0
    IsComplete before after relations d = d.changes ≡ [] → All (IsUnchanged before after) relations

    pub diff-IsUnchanged :
        (before after : StateImage) (r : RelationalResource) (d : RelationalDiff)
        → diff canonical digest before after r ≡ ok d
        → d.changes ≡ []
        → All
            (IsUnchanged before.relations after.relations)
            (sort_by (λ r. r.relation_id) r.manifest.relations)
    unfolding diff
    diff-IsUnchanged before after r d e h =
        let relations = sort_by (λ r. r.relation_id) r.manifest.relations in
        let Q = IsComplete before.relations after.relations relations in
        subst (IsOk Q) e
          (IsOk-each Q (ensure_live r) _ (λ _.
            IsOk-each Q (raise_if (is_foreign before after r) compatibility_error) _ (λ _.
              IsOk-each Q (raise_if (is_partial before after r) compatibility_error) _ (λ _.
                IsOk-bind
                  (λ cs. cs ≡ [] → All (IsUnchanged before.relations after.relations) relations) Q
                  (all_changes canonical relations before.relations after.relations) _
                  (all_changes-IsUnchanged relations before.relations after.relations)
                  (λ changes p.
                    IsOk-each Q (image_digest digest before) _
                      (λ _. IsOk-each Q (image_digest digest after) _ (λ _. p)))))))
          h
