-- ===== src/Inventory.antt =====
-- The asset register: `apps/api/src/inventory/inventory.service.ts` and the input and row types of
-- `packages/types/src/inventory.ts`. Ids, asset tags and categories are only compared, so they are
-- numbers; a cost is in paisa; a date is its time stamp.
pub mod Rows
pub mod Stock
pub mod Flow
pub mod Requests
mod Tests
pub use Rows.*
use skolara.Prelude.{ℕ, ◌-◌, not, ◌&&◌, ◌||◌, none, some, ltb, ◌==◌, is_none, holds, if◌then◌else◌}
use skolara.Prelude.Action.{
  Action, bad_request, conflict, not_found, record_missing, unique_violation, ◌>>=◌, ◌>>◌, pure,
  raise, raise_if, only_if, transaction,
}
use skolara.Store.{
  Prisma, no_clash, find, find_or, insert_or, update_many, update, update_or, delete_many,
}

module _ (db : Prisma) where
  own_item : (school_id id : ℕ) → Action State InventoryItem
  own_item school_id id =
      find_or db items_table (λ i. i.id == id && i.school_id == school_id)
        (not_found "Item not found")

  -- The holder is a user or a class of the same school. Prisma leaves the test on an id that is
  -- not given out.
  assert_holder : (school_id : ℕ) → IssueAssetInput → Action State (Unit {0})
  assert_holder school_id input = elim input.assigned_to_user_id [
    | some user_id ↦ do
      _ ←
          find_or db users_table (λ u. u.id == user_id && u.school_id == school_id)
            (not_found "Staff member not found")
      pure tt
    | none ↦ do
      _ ←
          find_or db classes_table
            (λ c. (is_none input.class_id || holds input.class_id c.id) && c.school_id == school_id)
            (not_found "Class not found")
      pure tt
  ]

  pub create_item : (school_id id : ℕ) → UpsertInventoryItemInput → Action State InventoryItem
  create_item school_id id input =
      insert_or db items_table clashes (new_item school_id id input)
        (conflict "Another item already carries that asset tag")

  pub update_item : (school_id id : ℕ) → UpsertInventoryItemInput → Action State (Unit {0})
  unfolding own_item
  update_item school_id id input = do
    item ← own_item school_id id
    raise_if (ltb input.quantity item.units_out)
        (bad_request "${item.unitsOut} units of that are still out — take the quantity no lower")
    update_or db items_table (no_clash same_tag) (λ i. i.id == id) (edit_item input)
        (conflict "Another item already carries that asset tag")

  -- The foreign key cascades: the item's assignments go with it.
  pub remove_item : (school_id id : ℕ) → Action State (Unit {0})
  unfolding own_item
  remove_item school_id id = do
    item ← own_item school_id id
    raise_if (ltb 0 item.units_out)
        (bad_request "Some of that is still out — get it back before deleting the item")
    delete_many db assignments_table (λ a. a.item_id == id)
    delete_many db items_table (λ i. i.id == id)

  -- The transaction of `issue`.
  pub reserve : (school_id item_id id : ℕ) → IssueAssetInput → Action State AssetAssignment
  reserve school_id item_id id input = transaction (do
    let units = units_asked input
    reserved ← update_many db items_table (is_issuable school_id item_id units) (take_units units)
    only_if (reserved == 0) (do
      current ← find db items_table (λ i. i.id == item_id)
      let available : ℕ = elim current [ none ↦ 0 | some i ↦ i.quantity - i.units_out ]
      raise (
          conflict (
            if available == 0
            then "None of that is available right now"
            else "Only ${available} available — asked for ${units}")))
    insert_or db assignments_table same_assignment (new_assignment school_id id item_id input)
        unique_violation)

  pub issue : (school_id item_id id : ℕ) → IssueAssetInput → Action State AssetAssignment
  unfolding own_item assert_holder
  issue school_id item_id id input = do
    item ← own_item school_id item_id
    raise_if (is_unissuable item.condition)
        (bad_request "That item is marked ${item.condition} — it can't be issued")
    assert_holder school_id input
    reserve school_id item_id id input

  -- The transaction of `returnAsset`, for the assignment that was read before it.
  pub take_back :
      (school_id : ℕ)
      → AssetAssignment
      → (now : ℕ) → ReturnAssetInput
      → Action State AssetAssignment
  take_back school_id assignment now input = transaction (do
    claimed ← update_many db assignments_table (is_open school_id assignment.id) (close now input)
    raise_if (claimed == 0) (bad_request "That has already been returned")
    _ ←
        update_many db items_table (can_give assignment.item_id assignment.units)
          (give_units assignment.units)
    only_if (is_unissuable input.returned_condition) (
        update db items_table (λ i. i.id == assignment.item_id)
          (set_condition input.returned_condition))
    find_or db assignments_table (λ a. a.id == assignment.id) record_missing)

  pub return_asset :
      (school_id assignment_id now : ℕ) → ReturnAssetInput → Action State AssetAssignment
  return_asset school_id assignment_id now input = do
    assignment ←
        find_or db assignments_table (λ a. a.id == assignment_id && a.school_id == school_id)
          (not_found "Assignment not found")
    raise_if (not (is_none assignment.returned_at)) (bad_request "That has already been returned")
    take_back school_id assignment now input
