-- ===== src/Inventory/Rows.antt =====
-- The rows and inputs of `apps/api/src/inventory/inventory.service.ts`, and the writes of their
-- columns.
use skolara.Prelude.{
  ℕ, ◌+◌, ◌-◌, String, Bool, true, false, ◌&&◌, ◌||◌, List, Option, none, some, leb, ◌==◌, is_none,
  or_else, same_some,
}
use skolara.Store.{Table}

pub data AssetCondition : Type 0 where
  new good fair poor damaged written_off : AssetCondition

-- `UNISSUABLE.includes(condition)`
abbrev pub is_unissuable : AssetCondition → Bool
is_unissuable damaged = true
is_unissuable written_off = true
is_unissuable _ = false

pub record InventoryItem : Type 0 where
  pub id : ℕ
  pub school_id : ℕ
  pub name : String
  pub category : ℕ
  pub asset_tag : Option ℕ
  pub location : Option String
  pub quantity : ℕ
  pub units_out : ℕ
  pub condition : AssetCondition
  pub purchased_on : Option ℕ
  pub purchase_cost_pkr : Option ℕ
  pub notes : Option String

pub record AssetAssignment : Type 0 where
  pub id : ℕ
  pub school_id : ℕ
  pub item_id : ℕ
  pub assigned_to_user_id : Option ℕ
  pub class_id : Option ℕ
  pub units : ℕ
  pub due_back_on : Option ℕ
  pub returned_at : Option ℕ
  pub returned_condition : Option AssetCondition
  pub notes : Option String

-- A row of User or SchoolClass, as far as the holder check reads it.
pub record Member : Type 0 where
  pub id : ℕ
  pub school_id : ℕ

pub record State : Type 0 where
  pub items : List InventoryItem
  pub assignments : List AssetAssignment
  pub users : List Member
  pub classes : List Member

pub record UpsertInventoryItemInput : Type 0 where
  pub name : String
  pub category : ℕ
  pub asset_tag : Option ℕ
  pub location : Option String
  pub quantity : ℕ
  pub condition : Option AssetCondition
  pub purchased_on : Option ℕ
  pub purchase_cost_pkr : Option ℕ
  pub notes : Option String

pub record IssueAssetInput : Type 0 where
  pub assigned_to_user_id : Option ℕ
  pub class_id : Option ℕ
  pub units : Option ℕ
  pub due_back_on : Option ℕ
  pub notes : Option String

pub record ReturnAssetInput : Type 0 where
  pub returned_condition : AssetCondition
  pub notes : Option String

abbrev pub items_table : Table State InventoryItem
items_table = record { get = λ s. s.items; put = λ s rows. record s { items = rows } }

abbrev pub assignments_table : Table State AssetAssignment
assignments_table = record {
  get = λ s. s.assignments;
  put = λ s rows. record s { assignments = rows };
}

abbrev pub users_table : Table State Member
users_table = record { get = λ s. s.users; put = λ s rows. record s { users = rows } }

abbrev pub classes_table : Table State Member
classes_table = record { get = λ s. s.classes; put = λ s rows. record s { classes = rows } }

-- The unique index on (schoolId, assetTag); rows with no tag do not clash.
abbrev pub same_tag : InventoryItem → InventoryItem → Bool
same_tag x y = x.school_id == y.school_id && same_some x.asset_tag y.asset_tag

-- The primary key and that index, as a test on a new row.
abbrev pub clashes : InventoryItem → InventoryItem → Bool
clashes x y = y.id == x.id || same_tag x y

abbrev pub new_item : ℕ → ℕ → UpsertInventoryItemInput → InventoryItem
new_item school_id id input = record {
  id = id;
  school_id = school_id;
  name = input.name;
  category = input.category;
  asset_tag = input.asset_tag;
  location = input.location;
  quantity = input.quantity;
  units_out = 0;
  condition = or_else input.condition good;
  purchased_on = input.purchased_on;
  purchase_cost_pkr = input.purchase_cost_pkr;
  notes = input.notes;
}

abbrev pub edit_item : UpsertInventoryItemInput → InventoryItem → InventoryItem
edit_item input i = record i {
  name = input.name;
  category = input.category;
  asset_tag = input.asset_tag;
  location = input.location;
  quantity = input.quantity;
  condition = or_else input.condition i.condition;
  purchased_on = input.purchased_on;
  purchase_cost_pkr = input.purchase_cost_pkr;
  notes = input.notes;
}

-- `input.units ?? 1`
abbrev pub units_asked : IssueAssetInput → ℕ
units_asked input = or_else input.units 1

-- The reservation: the `WHERE` and the `SET` of the raw update.
abbrev pub is_issuable : ℕ → ℕ → ℕ → InventoryItem → Bool
is_issuable school_id item_id units i =
    i.id == item_id && (i.school_id == school_id && leb (i.units_out + units) i.quantity)

abbrev pub take_units : ℕ → InventoryItem → InventoryItem
take_units units i = record i { units_out = i.units_out + units }

abbrev pub new_assignment : ℕ → ℕ → ℕ → IssueAssetInput → AssetAssignment
new_assignment school_id id item_id input = record {
  id = id;
  school_id = school_id;
  item_id = item_id;
  assigned_to_user_id = input.assigned_to_user_id;
  class_id = input.class_id;
  units = units_asked input;
  due_back_on = input.due_back_on;
  returned_at = none;
  returned_condition = none;
  notes = input.notes;
}

abbrev pub same_assignment : AssetAssignment → AssetAssignment → Bool
same_assignment x y = y.id == x.id

-- The claim on a return: its `where` and its `data`.
abbrev pub is_open : ℕ → ℕ → AssetAssignment → Bool
is_open school_id assignment_id a =
    a.id == assignment_id && (a.school_id == school_id && is_none a.returned_at)

-- `...(input.notes ? { notes: input.notes } : {})`
abbrev pub given_notes : Option String → Option String → Option String
given_notes none old = old
given_notes (some String.[]) old = old
given_notes (some (String.◌∷◌ c text)) old = some (String.◌∷◌ c text)

abbrev pub close : ℕ → ReturnAssetInput → AssetAssignment → AssetAssignment
close now input a = record a {
  returned_at = some now;
  returned_condition = some input.returned_condition;
  notes = given_notes input.notes a.notes;
}

-- `"unitsOut" - units >= 0`
abbrev pub can_give : ℕ → ℕ → InventoryItem → Bool
can_give item_id units i = i.id == item_id && leb units i.units_out

abbrev pub give_units : ℕ → InventoryItem → InventoryItem
give_units units i = record i { units_out = i.units_out - units }

abbrev pub set_condition : AssetCondition → InventoryItem → InventoryItem
set_condition c i = record i { condition = c }
