-- ===== src/Examples/Assignments.antt =====
-- The theorems on automatic assignment at concrete inputs.
use ai_powered_market.Assignment.{Nearest, Queue, auto_assign_delivery, dispatch_ready_deliveries}
use ai_powered_market.Assignment.Fleet.{YieldsStored, dispatch_ready-IsExclusive}
use ai_powered_market.Examples.Data.{founder, on_the_way, paid_order, shop, trip}
use ai_powered_market.Model.Db.{Db}
use ai_powered_market.Model.Keys.{delivery_key}
use ai_powered_market.Model.Orders.{Delivery, Order}
use ai_powered_market.Model.Status.{ready, unassigned}
use ai_powered_market.Payments.Webhook.{seen}
use ai_powered_market.Prelude.{
  [], arith, contains, find_by, get, get-key, if◌then◌else◌, nat_eq, none, some, ◌∷◌,
}
use ai_powered_market.Riders.Exclusive.{IsExclusive}
use ai_powered_market.Session.{respond}

abbrev open_order : Order
open_order = record paid_order { status = ready }

abbrev open_task : Delivery
open_task = record trip {
  delivery_partner_id = none;
  status = unassigned;
  assigned_at = none;
  picked_up_at = none;
}

abbrev located : Db
located = record (on_the_way open_order open_task) {
  stores = record shop { latitude = some 1; longitude = some 1 } ∷ [];
}

abbrev nearest_rider : Nearest
nearest_rider db store = some 3

-- The one delivery of the market, until it was seen.
abbrev one_task : Queue
one_task db seen = if contains seen 110 then none else get delivery_key 110 db.deliveries

one_task-YieldsStored : YieldsStored one_task
one_task-YieldsStored db seen d h = ground (arith, get-key delivery_key 110 db.deliveries d)

located-IsExclusive : IsExclusive located.deliveries
unfolding get find_by
located-IsExclusive r i j a b ga gb ca cb = ground arith

abbrev assigned_db : Db
assigned_db = (respond (auto_assign_delivery nearest_rider 9 110 founder) located).1

dispatch_ready-IsExclusive_example :
    IsExclusive (dispatch_ready_deliveries one_task nearest_rider 9 25 located).1.deliveries
dispatch_ready-IsExclusive_example =
    dispatch_ready-IsExclusive one_task nearest_rider 9 25 located one_task-YieldsStored
      located-IsExclusive
