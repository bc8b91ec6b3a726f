-- ===== src/Environment/World/Difference.antt =====
-- world.py, CommerceWorld.semantic_diff: the changed entities of two states.
use agent_verification_proto.Base.{
  String, ◌≡◌, Bool, true, false, not, ◌&&◌, Option, none, some, List, [], ◌∷◌, ◌++◌, eqb, ◌==◌,
  eq_iff, if◌then◌else◌, arith,
}
use agent_verification_proto.Base.Text.{◌<>◌}
use agent_verification_proto.Base.Dict.{Dict, lookup}
use agent_verification_proto.Base.Sets.{sorted_set}
use agent_verification_proto.Environment.World.{Customer, Order, Refund, WorldState}

pub data Entity : Type 0 where
  a_customer : Customer → Entity
  an_order : Order → Entity
  a_refund : Refund → Entity

pub record Change : Type 0 where
  pub entity : String
  pub before : Option Entity
  pub after : Option Entity

abbrev same_bool : Bool → Bool → Bool
same_bool true b = b
same_bool false b = not b

abbrev pub same_customer : Customer → Customer → Bool
same_customer a b = a.id == b.id && (a.name == b.name && same_bool a.deleted b.deleted)

abbrev pub same_order : Order → Order → Bool
same_order a b =
    a.id == b.id
    && (a.customer_id == b.customer_id
        && (a.status == b.status && (a.week == b.week && eqb a.amount b.amount)))

abbrev pub same_refund : Refund → Refund → Bool
same_refund a b =
    a.id == b.id && (a.order_id == b.order_id && (a.status == b.status && eqb a.amount b.amount))

module _ {A : Type 0} where
  abbrev pub keys : Dict A → List String
  keys [] = []
  keys ((key, held) ∷ rest) = key ∷ keys rest

  abbrev pub same_option : (A → A → Bool) → Option A → Option A → Bool
  same_option same none none = true
  same_option same (some a) (some b) = same a b
  same_option same _ _ = false

  abbrev pub wrapped : (A → Entity) → Option A → Option Entity
  wrapped wrap none = none
  wrapped wrap (some a) = some (wrap a)

  -- The loop over the sorted identifiers of one table.
  abbrev pub changes_of :
      String → (A → A → Bool) → (A → Entity) → Dict A → Dict A → List String → List Change
  changes_of table same wrap before after [] = []
  changes_of table same wrap before after (id ∷ ids) =
      let rest = changes_of table same wrap before after ids in
      if same_option same (lookup id before) (lookup id after)
      then rest
      else record {
        entity = table <> ":" <> id;
        before = wrapped wrap (lookup id before);
        after = wrapped wrap (lookup id after);
      }
        ∷ rest

  abbrev pub table_changes : String → (A → A → Bool) → (A → Entity) → Dict A → Dict A → List Change
  table_changes table same wrap before after =
      changes_of table same wrap before after (sorted_set (keys before ++ keys after))

unfoldable pub semantic_diff : WorldState → WorldState → List Change
semantic_diff before after =
    table_changes "customers" same_customer a_customer before.customers after.customers
    ++ (table_changes "orders" same_order an_order before.orders after.orders
        ++ table_changes "refunds" same_refund a_refund before.refunds after.refunds)

same_bool_sound : (a b : Bool) → same_bool a b ≡ true → a ≡ b
same_bool_sound true b h = ground arith
same_bool_sound false b h = ground arith

pub same_customer_sound : (a b : Customer) → same_customer a b ≡ true → a ≡ b
same_customer_sound a b h =
    ground (arith, eq_iff a.id b.id, eq_iff a.name b.name, same_bool_sound a.deleted b.deleted)

pub same_order_sound : (a b : Order) → same_order a b ≡ true → a ≡ b
same_order_sound a b h = ground (
  arith,
  eq_iff a.id b.id,
  eq_iff a.customer_id b.customer_id,
  eq_iff a.status b.status,
  eq_iff a.week b.week,
)

pub same_refund_sound : (a b : Refund) → same_refund a b ≡ true → a ≡ b
same_refund_sound a b h =
    ground (arith, eq_iff a.id b.id, eq_iff a.order_id b.order_id, eq_iff a.status b.status)
