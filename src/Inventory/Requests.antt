-- ===== src/Inventory/Requests.antt =====
-- The asset register as a whole: any request to the inventory service.
use skolara.Prelude.{ℕ}
use skolara.Store.{Prisma}
use skolara.Inventory.{
  State, UpsertInventoryItemInput, IssueAssetInput, ReturnAssetInput, create_item, update_item,
  remove_item, issue, return_asset,
}
use skolara.Inventory.Stock.{
  IsBalanced, create_item-IsBalanced, update_item-IsBalanced, remove_item-IsBalanced,
}
use skolara.Inventory.Flow.{issue-IsBalanced, return_asset-IsBalanced}

pub data Request : Type 0 where
  add_item : (school_id id : ℕ) → UpsertInventoryItemInput → Request
  edit_item : (school_id id : ℕ) → UpsertInventoryItemInput → Request
  drop_item : (school_id id : ℕ) → Request
  issue_units : (school_id item_id id : ℕ) → IssueAssetInput → Request
  return_units : (school_id assignment_id now : ℕ) → ReturnAssetInput → Request

-- What the service leaves behind it.
pub serve : Prisma → Request → State → State
serve db (add_item school_id id input) s = (create_item db school_id id input s).1
serve db (edit_item school_id id input) s = (update_item db school_id id input s).1
serve db (drop_item school_id id) s = (remove_item db school_id id s).1
serve db (issue_units school_id item_id id input) s = (issue db school_id item_id id input s).1
serve db (return_units school_id assignment_id now input) s =
    (return_asset db school_id assignment_id now input s).1

-- Every request to the inventory service, refused or not, leaves the register balanced where it
-- was: every item's units out are those of its open assignments and no more than its quantity,
-- every assignment's item exists, and the ids are unique.
pub serve_keeps_register :
    (db : Prisma) (q : Request) (s : State) → IsBalanced s → IsBalanced (serve db q s)
unfolding serve
serve_keeps_register db (add_item school_id id input) s v =
    create_item-IsBalanced db school_id id input s v
serve_keeps_register db (edit_item school_id id input) s v =
    update_item-IsBalanced db school_id id input s v
serve_keeps_register db (drop_item school_id id) s v = remove_item-IsBalanced db school_id id s v
serve_keeps_register db (issue_units school_id item_id id input) s v =
    issue-IsBalanced db school_id item_id id input s v
serve_keeps_register db (return_units school_id assignment_id now input) s v =
    return_asset-IsBalanced db school_id assignment_id now input s v
