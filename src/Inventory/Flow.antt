-- ===== src/Inventory/Flow.antt =====
-- Units that go out and come back: `issue` and `returnAsset` of the asset register.
use skolara.Prelude.{
  ℕ, ◌≡◌, refl, ◌∙◌, true, false, ◌&&◌, ◌∷◌, none, arith, ◌==◌, inl, inr, any, count_by, update_by,
  All, In, All-update_by, In-of_count, any_of_In, Bool-cases, Option-cases,
}
use skolara.Store.{
  Prisma, Unique-update_by, any-map, any-update_by_key, keyed, eq_of_key, sum-update_by, found_row,
}
use skolara.Inventory.{
  State, InventoryItem, AssetAssignment, IssueAssetInput, ReturnAssetInput, units_asked,
  is_issuable, take_units, new_assignment, same_assignment, is_open, close, can_give, give_units,
  set_condition, reserve, issue, take_back, return_asset,
}
use skolara.Inventory.Stock.{held, AddsUp, Refers, Refers-update_by, IsBalanced, edited-IsBalanced}

-- Reserved units and the assignment that they go to.
reserved-AddsUp :
    (school_id item_id units : ℕ) (a : AssetAssignment) (s : State)
    → IsBalanced s
    → a.item_id ≡ item_id
    → a.units ≡ units
    → a.returned_at ≡ none
    → (count_by (is_issuable school_id item_id units) s.items == 0) ≡ false
    → All
        (AddsUp (a ∷ s.assignments))
        (update_by (is_issuable school_id item_id units) (take_units units) s.items)
reserved-AddsUp school_id item_id units a s v e f o c =
    let (i, m, q) = In-of_count (is_issuable school_id item_id units) s.items c in
    All-update_by (AddsUp s.assignments) (AddsUp (a ∷ s.assignments)) _ (take_units units) s.items
      (λ x n h. ground (arith, eq_of_key InventoryItem.id s.items x i v.item_ids n m)) v.adds_up

reserved-Refers :
    (school_id item_id units : ℕ) (s : State)
    → (count_by (is_issuable school_id item_id units) s.items == 0) ≡ false
    → any
        (keyed InventoryItem.id item_id)
        (update_by (is_issuable school_id item_id units) (take_units units) s.items)
      ≡ true
reserved-Refers school_id item_id units s c =
    let (i, m, q) = In-of_count (is_issuable school_id item_id units) s.items c in
    any-update_by_key InventoryItem.id item_id _ (take_units units) s.items (λ b. refl)
    ∙ any_of_In (keyed InventoryItem.id item_id) s.items i m (ground arith)

-- Returned units, for the assignment that is claimed.
returned-AddsUp :
    (school_id now : ℕ) (input : ReturnAssetInput) (a : AssetAssignment) (s : State)
    → IsBalanced s
    → In a s.assignments
    → is_open school_id a.id a ≡ true
    → All
        (AddsUp (update_by (is_open school_id a.id) (close now input) s.assignments))
        (update_by (can_give a.item_id a.units) (give_units a.units) s.items)
returned-AddsUp school_id now input a s v m o =
    let closes = is_open school_id a.id in
    All-update_by (AddsUp s.assignments) (AddsUp (update_by closes (close now input) s.assignments))
      _ (give_units a.units) s.items
      (λ x n h. ground (
        arith,
        sum-update_by AssetAssignment.id (held x.id) closes (close now input) s.assignments a
            (λ y q. ground arith) v.assignment_ids m,
      ))
      v.adds_up

module _ (db : Prisma) where
  -- The transaction that issues units leaves the register balanced where it was: every item's
  -- units out are those of its open assignments and no more than its quantity, every assignment's
  -- item exists, and the ids are unique.
  pub reserve-IsBalanced :
      (school_id item_id id : ℕ) (input : IssueAssetInput) (s : State)
      → IsBalanced s
      → IsBalanced (reserve db school_id item_id id input s).1
  unfolding reserve
  reserve-IsBalanced school_id item_id id input s v =
      let units = units_asked input in
      let takes = is_issuable school_id item_id units in
      ground (
        arith,
        db.update_many_lem takes (take_units units) s.items,
        db.create_lem same_assignment (new_assignment school_id id item_id input) s.assignments,
        reserved-AddsUp school_id item_id units (new_assignment school_id id item_id input) s v,
        reserved-Refers school_id item_id units s,
        Unique-update_by InventoryItem.id takes (take_units units) s.items (λ x. refl),
        any-map AssetAssignment.id id s.assignments,
        Refers-update_by takes (take_units units) s.items s.assignments (λ b. refl),
      )

  -- Issuing units of an item leaves the register balanced where it was, on every path: every
  -- item's units out are those of its open assignments and no more than its quantity, every
  -- assignment's item exists, and the ids are unique.
  pub issue-IsBalanced :
      (school_id item_id id : ℕ) (input : IssueAssetInput) (s : State)
      → IsBalanced s
      → IsBalanced (issue db school_id item_id id input s).1
  unfolding issue
  issue-IsBalanced school_id item_id id input s v =
      ground (arith, reserve-IsBalanced school_id item_id id input s v)

  -- The state once the claim and the give-back have been written.
  given_back :
      (school_id now : ℕ) (input : ReturnAssetInput) (a : AssetAssignment) (s : State)
      → IsBalanced s
      → In a s.assignments
      → is_open school_id a.id a ≡ true
      → IsBalanced (record s {
        assignments = update_by (is_open school_id a.id) (close now input) s.assignments;
        items = update_by (can_give a.item_id a.units) (give_units a.units) s.items;
      })
  given_back school_id now input a s v m o = record {
    item_ids =
        Unique-update_by InventoryItem.id _ (give_units a.units) s.items (λ x. refl) v.item_ids;
    assignment_ids =
        Unique-update_by AssetAssignment.id _ (close now input) s.assignments (λ x. refl)
          v.assignment_ids;
    refers =
        Refers-update_by _ (give_units a.units) s.items _ (λ b. refl)
          (All-update_by (Refers s.items) (Refers s.items) _ (close now input) s.assignments
            (λ l k r. ground arith) v.refers);
    adds_up = returned-AddsUp school_id now input a s v m o;
  }

  -- The transaction of a return leaves the register balanced where it was, also for an assignment
  -- that was read earlier, as long as its row is still there with the same id, item and units:
  -- every item's units out are those of its open assignments and no more than its quantity, every
  -- assignment's item exists, and the ids are unique.
  pub take_back-IsBalanced :
      (school_id now : ℕ) (input : ReturnAssetInput) (a read : AssetAssignment) (s : State)
      → IsBalanced s
      → In a s.assignments
      → read.id ≡ a.id
      → read.item_id ≡ a.item_id
      → read.units ≡ a.units
      → IsBalanced (take_back db school_id read now input s).1
  unfolding take_back
  take_back-IsBalanced school_id now input a read s v m e f g =
      let closes = is_open school_id read.id in
      let gives = can_give read.item_id read.units in
      elim (Bool-cases (count_by closes s.assignments == 0)) [
        | inl gone ↦ ground (arith, gone, db.update_many_lem closes (close now input) s.assignments)
        | inr claimed ↦
            let (b, n, o) = In-of_count closes s.assignments claimed in
            let t : State = record s {
              assignments = update_by closes (close now input) s.assignments;
              items = update_by gives (give_units read.units) s.items;
            } in
            ground (
              arith,
              claimed,
              o,
              eq_of_key AssetAssignment.id s.assignments b a v.assignment_ids n m,
              db.update_many_lem closes (close now input) s.assignments,
              db.update_many_lem gives (give_units read.units) s.items,
              db.update_many_lem (λ i. i.id == read.item_id)
                  (set_condition input.returned_condition) t.items,
              given_back school_id now input a s v m,
              edited-IsBalanced (λ i. i.id == read.item_id) (set_condition input.returned_condition)
                  t (λ x. (refl, refl)) (λ x k q h. h),
            )
      ]

  -- Returning an asset leaves the register balanced where it was, on every path: every item's
  -- units out are those of its open assignments and no more than its quantity, every assignment's
  -- item exists, and the ids are unique.
  pub return_asset-IsBalanced :
      (school_id assignment_id now : ℕ) (input : ReturnAssetInput) (s : State)
      → IsBalanced s
      → IsBalanced (return_asset db school_id assignment_id now input s).1
  unfolding return_asset
  return_asset-IsBalanced school_id assignment_id now input s v =
      let own = λ (a : AssetAssignment). a.id == assignment_id && a.school_id == school_id in
      elim (Option-cases (db.find_first own s.assignments)) [
        | inl e ↦ ground (arith, e)
        | inr (a, e) ↦
            let (m, q) = found_row db own s.assignments e in
            ground (arith, e, take_back-IsBalanced school_id now input a a s v m refl refl refl)
      ]
