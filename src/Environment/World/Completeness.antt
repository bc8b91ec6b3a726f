-- ===== src/Environment/World/Completeness.antt =====
-- A difference that reports nothing compares equal states.
use agent_verification_proto.Base.{
  String, ◌≡◌, ◌∙◌, sym, refl, ap, Bool, true, false, ◌||◌, Option, none, some, List, [], ◌∷◌, ◌++◌,
  eq_iff, contains, arith, Bool-cases, inl, inr,
}
use agent_verification_proto.Base.Dict.{Dict, lookup}
use agent_verification_proto.Base.Sets.{sorted_set, contains-sorted_set}
use agent_verification_proto.Environment.World.{WorldState}
use agent_verification_proto.Environment.World.Difference.{
  Entity, a_customer, an_order, a_refund, Change, same_customer, same_order, same_refund,
  same_customer_sound, same_order_sound, same_refund_sound, keys, same_option, changes_of,
  table_changes, semantic_diff,
}

append-nil_parts : (xs ys : List Change) → xs ++ ys ≡ [] → (xs ≡ []) × (ys ≡ [])
append-nil_parts [] ys h = (refl, h)
append-nil_parts (x ∷ xs) ys h = ground arith

contains-append :
    (id : String) (xs ys : List String)
    → contains id (xs ++ ys) ≡ (contains id xs || contains id ys)
contains-append id [] ys = refl
contains-append id (x ∷ xs) ys = ground (arith, contains-append id xs ys)

module _ {A : Type 0} (same : A → A → Bool) (sound : (a b : A) → same a b ≡ true → a ≡ b)
    (table : String) (wrap : A → Entity) where
  same_option_sound : (a b : Option A) → same_option same a b ≡ true → a ≡ b
  same_option_sound none none h = refl
  same_option_sound none (some b) h = ground arith
  same_option_sound (some a) none h = ground arith
  same_option_sound (some a) (some b) h = ap some (sound a b h)

  missing_key : (id : String) (d : Dict A) → contains id (keys d) ≡ false → lookup id d ≡ none
  unfolding lookup
  missing_key id [] h = refl
  missing_key id ((key, held) ∷ rest) h = ground (arith, missing_key id rest)

  changes_of-nil :
      (before after : Dict A) (ids : List String) (id : String)
      → changes_of table same wrap before after ids ≡ []
      → contains id ids ≡ true
      → lookup id before ≡ lookup id after
  changes_of-nil before after [] id h there = ground arith
  changes_of-nil before after (x ∷ ids) id h there = ground (
    arith,
    eq_iff x id,
    changes_of-nil before after ids id,
    same_option_sound (lookup x before) (lookup x after),
  )

  table_changes-nil :
      (before after : Dict A) (id : String)
      → table_changes table same wrap before after ≡ []
      → lookup id before ≡ lookup id after
  table_changes-nil before after id h =
      elim (Bool-cases (contains id (keys before ++ keys after))) [
        | inl there ↦
            changes_of-nil before after (sorted_set (keys before ++ keys after)) id h
              (contains-sorted_set id (keys before ++ keys after) ∙ there)
        | inr absent ↦
            let none_before : lookup id before ≡ none =
              missing_key id before
                (ground (arith, contains-append id (keys before) (keys after))) in
            let none_after : lookup id after ≡ none =
              missing_key id after
                (ground (arith, contains-append id (keys before) (keys after))) in
            none_before ∙ sym none_after
      ]

-- An empty difference is complete: no customer, order or refund was added, removed or changed.
pub semantic_diff-nil :
    (before after : WorldState) (id : String)
    → semantic_diff before after ≡ []
    → (lookup id before.customers ≡ lookup id after.customers)
      × (lookup id before.orders ≡ lookup id after.orders)
      × (lookup id before.refunds ≡ lookup id after.refunds)
unfolding semantic_diff
semantic_diff-nil before after id h =
    let (customers, others) = append-nil_parts _ _ h in
    let (orders, refunds) = append-nil_parts _ _ others in
    (
      table_changes-nil same_customer same_customer_sound "customers" a_customer before.customers
          after.customers id customers,
      table_changes-nil same_order same_order_sound "orders" an_order before.orders after.orders id
          orders,
      table_changes-nil same_refund same_refund_sound "refunds" a_refund before.refunds
          after.refunds id refunds,
    )
