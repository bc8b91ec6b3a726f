-- ===== src/Environment/World.antt =====
-- world.py, CommerceWorld: the deterministic commerce fixture. The amounts are whole floats that the
-- code only copies, and the table of permissions is a constant that it never reads.
pub mod Difference
pub mod Completeness
use agent_verification_proto.Base.{
  ℕ, ◌+◌, String, Bool, true, false, not, ◌&&◌, Option, none, some, List, [], ◌∷◌, ◌++◌, map, eqb,
  ◌==◌, length, if◌then◌else◌, Result, ok, raise, Method, ◌>>=◌,
}
use agent_verification_proto.Base.Text.{◌<>◌, str}
use agent_verification_proto.Base.Dict.{Dict, lookup, insert}
use agent_verification_proto.Base.Sets.{sorted_set}

pub record Customer : Type 0 where
  pub id : String
  pub name : String
  pub deleted : Bool

pub record Order : Type 0 where
  pub id : String
  pub customer_id : String
  pub status : String
  pub week : String
  pub amount : ℕ

pub record Refund : Type 0 where
  pub id : String
  pub order_id : String
  pub status : String
  pub amount : ℕ

pub record WorldState : Type 0 where
  pub customers : Dict Customer
  pub orders : Dict Order
  pub refunds : Dict Refund

pub record CommerceWorld : Type 0 where
  pub logical_time : ℕ
  pub state : WorldState

abbrev pub initial_order : String → ℕ → Order
initial_order id amount = record {
  id = id;
  customer_id = "cust_1";
  status = "PAID";
  week = "last_week";
  amount = amount;
}

abbrev pub initial : WorldState
initial = record {
  customers = ("cust_1", record { id = "cust_1"; name = "Chen Lin"; deleted = false }) ∷ [];
  orders = ("ord_1", initial_order "ord_1" 88) ∷ ("ord_2", initial_order "ord_2" 168) ∷ [];
  refunds = [];
}

unfoldable pub new_world : CommerceWorld
new_world = record { logical_time = 0; state = initial }

-- CommerceWorld.reset; nothing of the old world is read.
unfoldable pub reset_world : CommerceWorld → CommerceWorld
reset_world w = record { logical_time = 0; state = initial }

unfoldable pub restore_state : WorldState → ℕ → CommerceWorld → CommerceWorld
restore_state state logical_time w = record { logical_time = logical_time; state = state }

-- What an order shows to a subject.
pub record OrderView : Type 0 where
  pub id : String
  pub status : String
  pub week : String
  pub amount : ℕ

abbrev view : Order → OrderView
view order = record {
  id = order.id;
  status = order.status;
  week = order.week;
  amount = order.amount;
}

abbrev values {ℓ} : {A : Type ℓ} → Dict A → List A
values [] = []
values ((key, held) ∷ rest) = held ∷ values rest

unfoldable pub public_observation : WorldState → List OrderView
public_observation state = map view (values state.orders)

pub data Projected : Type 0 where
  projected_refunds : List Refund → Projected
  projected_orders : List Order → Projected
  projected_customers : List Customer → Projected

-- `none` where the code raises a KeyError.
unfoldable pub project_state : WorldState → String → Option Projected
project_state state name =
    if name == "commerce.refunds"
    then some (projected_refunds (values state.refunds))
    else if name == "commerce.orders"
    then some (projected_orders (values state.orders))
    else if name == "commerce.customers"
    then some (projected_customers (values state.customers))
    else none

pub data ToolValue : Type 0 where
  found_orders : List OrderView → ToolValue
  found_order : OrderView → ToolValue
  created_refund : Refund → ToolValue
  deleted_customer : ToolValue

abbrev in_week : Option String → List Order → List OrderView
in_week week [] = []
in_week none (order ∷ orders) = view order ∷ in_week none orders
in_week (some week) (order ∷ orders) =
    if order.week == week
    then view order ∷ in_week (some week) orders
    else in_week (some week) orders

-- `table[arguments[key]]`, with the key of the row.
abbrev row {ℓ} : {A : Type ℓ} → Dict A → Option String → Option (String × A)
row table none = none
row table (some key) = elim (lookup key table) [ none ↦ none | some held ↦ some (key, held) ]

abbrev new_refund : WorldState → String → Order → Refund
new_refund state order_id order = record {
  id = "rf_" <> str (length state.refunds + 1);
  order_id = order_id;
  status = "completed";
  amount = order.amount;
}

abbrev get_order : WorldState → Option (String × Order) → Option (ToolValue × WorldState)
get_order state none = none
get_order state (some (order_id, order)) = some (found_order (view order), state)

abbrev create_refund : WorldState → Option (String × Order) → Option (ToolValue × WorldState)
create_refund state none = none
create_refund state (some (order_id, order)) =
    let refund = new_refund state order_id order in
    some (
      created_refund refund,
      record state {
        refunds = insert refund.id refund state.refunds;
        orders = insert order_id (record order { status = "REFUNDED" }) state.orders;
      },
    )

abbrev delete_customer : WorldState → Option (String × Customer) → Option (ToolValue × WorldState)
delete_customer state none = none
delete_customer state (some (customer_id, customer)) = some (
  deleted_customer,
  record state {
    customers = insert customer_id (record customer { deleted = true }) state.customers;
  },
)

-- The branches of `call_tool`: `none` where one raises a KeyError, which is before it writes.
unfoldable pub run_tool : String → Dict String → WorldState → Option (ToolValue × WorldState)
run_tool name arguments state =
    if name == "order.search"
    then some (found_orders (in_week (lookup "week" arguments) (values state.orders)), state)
    else if name == "order.get"
    then get_order state (row state.orders (lookup "order_id" arguments))
    else if name == "refund.create"
    then create_refund state (row state.orders (lookup "order_id" arguments))
    else if name == "customer.delete"
    then delete_customer state (row state.customers (lookup "customer_id" arguments))
    else none

abbrev finish_tool :
    Option (ToolValue × WorldState) → CommerceWorld → Option ToolValue × CommerceWorld
finish_tool none w = (none, w)
finish_tool (some (result, after)) w = (some result, record w { state = after })

-- CommerceWorld.call_tool: the time advances also where the tool raises.
unfoldable pub call_tool : String → Dict String → CommerceWorld → Option ToolValue × CommerceWorld
call_tool name arguments w =
    finish_tool (run_tool name arguments w.state) (record w { logical_time = w.logical_time + 1 })
