-- ===== src/Inventory/Tests.antt =====
-- Runs of the asset register, and the theorems about it at concrete inputs.
use skolara.Prelude.{◌≡◌, refl, none, some, [], ◌∷◌, arith}
use skolara.Prelude.Action.{err, conflict, bad_request}
use skolara.Store.{listed}
use skolara.Inventory.{
  InventoryItem, AssetAssignment, State, UpsertInventoryItemInput, IssueAssetInput,
  ReturnAssetInput, good, damaged, reserve, issue, take_back, return_asset,
}
use skolara.Inventory.Stock.{IsBalanced}
use skolara.Inventory.Requests.{serve, return_units, serve_keeps_register}

abbrev laptop : InventoryItem
laptop = record {
  id = 1;
  school_id = 7;
  name = "Laptop";
  category = 2;
  asset_tag = some 500;
  location = none;
  quantity = 3;
  units_out = 1;
  condition = good;
  purchased_on = none;
  purchase_cost_pkr = none;
  notes = none;
}

abbrev desk : InventoryItem
desk = record laptop { id = 2; name = "Desk"; asset_tag = none; units_out = 0 }

abbrev out : AssetAssignment
out = record {
  id = 20;
  school_id = 7;
  item_id = 1;
  assigned_to_user_id = some 9;
  class_id = none;
  units = 1;
  due_back_on = none;
  returned_at = none;
  returned_condition = none;
  notes = none;
}

abbrev store : State
store = record {
  items = laptop ∷ desk ∷ [];
  assignments = out ∷ [];
  users = record { id = 9; school_id = 7 } ∷ [];
  classes = [];
}

abbrev edited : UpsertInventoryItemInput
edited = record {
  name = "Laptop";
  category = 2;
  asset_tag = some 501;
  location = some "Lab";
  quantity = 1;
  condition = none;
  purchased_on = none;
  purchase_cost_pkr = none;
  notes = none;
}

abbrev two_laptops : IssueAssetInput
two_laptops = record {
  assigned_to_user_id = some 9;
  class_id = none;
  units = some 2;
  due_back_on = none;
  notes = none;
}

abbrev broken : ReturnAssetInput
broken = record { returned_condition = damaged; notes = some "Screen" }

store-IsBalanced : IsBalanced store
store-IsBalanced = record {
  item_ids = (refl, (refl, tt));
  assignment_ids = (refl, tt);
  refers = (refl, tt);
  adds_up = ((refl, omega arith), ((refl, omega arith), tt));
}

-- There are two left, so the second issue of two is refused.
issue_twice :
    (issue listed 7 1 22 two_laptops (issue listed 7 1 21 two_laptops store).1).0
    ≡ err (conflict "None of that is available right now")
unfolding issue reserve
issue_twice = refl

-- What came back damaged is not issued again.
issue_damaged :
    (issue listed 7 1 22 two_laptops (return_asset listed 7 20 50 broken store).1).0
    ≡ err (bad_request "That item is marked ${item.condition} — it can't be issued")
unfolding issue return_asset take_back
issue_damaged = refl

serve_keeps_register_example : IsBalanced (serve listed (return_units 7 20 50 broken) store)
serve_keeps_register_example =
    serve_keeps_register listed (return_units 7 20 50 broken) store store-IsBalanced
