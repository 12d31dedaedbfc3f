-- ===== src/Inventory/Stock.antt =====
-- The units of an item: `createItem`, `updateItem` and `removeItem` of the asset register.
use skolara.Prelude.{
  ℕ, ◌≤◌, ◌≡◌, refl, ap, ◌∙◌, Bool, true, false, not, ◌&&◌, List, [], ◌∷◌, arith, ◌==◌, is_none,
  inl, inr, ◌⊎◌, ltb, if◌then◌else◌, any, sum_by, update_by, filter_by, All, In, All-map,
  All-update_by, All-filter_by, sum-filter_by, Bool-cases, Option-cases, ==→eq,
}
use skolara.Store.{
  Prisma, Unique, Unique-update_by, Unique-filter_by, any-map, any-update_by_key, keyed, eq_of_key,
  found_row, no_clash,
}
use skolara.Inventory.{
  State, InventoryItem, AssetAssignment, UpsertInventoryItemInput, clashes, same_tag, new_item,
  edit_item, create_item, update_item, remove_item,
}

-- The units of the item that an assignment keeps out.
abbrev pub held : ℕ → AssetAssignment → ℕ
held item_id a = if a.item_id == item_id && is_none a.returned_at then a.units else 0

abbrev pub AddsUp : List AssetAssignment → InventoryItem → Type 0
AddsUp assignments i = (i.units_out ≡ sum_by (held i.id) assignments) × (i.units_out ≤ i.quantity)

-- The foreign key: the item of an assignment exists.
abbrev pub Refers : List InventoryItem → AssetAssignment → Type 0
Refers items a = any (keyed InventoryItem.id a.item_id) items ≡ true

pub record IsBalanced (s : State) : Type 0 where
  pub item_ids : Unique InventoryItem.id s.items
  pub assignment_ids : Unique AssetAssignment.id s.assignments
  pub refers : All (Refers s.items) s.assignments
  pub adds_up : All (AddsUp s.assignments) s.items

held-new-item :
    (id : ℕ) (items : List InventoryItem) (assignments : List AssetAssignment)
    → any (keyed InventoryItem.id id) items ≡ false
    → All (Refers items) assignments
    → sum_by (held id) assignments ≡ 0
held-new-item id items [] e r = refl
held-new-item id items (a ∷ assignments) e r = elim (Bool-cases (a.item_id == id)) [
  | inl t ↦ cc (ap (λ n. any (keyed InventoryItem.id n) items) (==→eq a.item_id id t))
  | inr t ↦ ground (arith, held-new-item id items assignments e r.1)
]

pub Refers-update_by :
    (p : InventoryItem → Bool) (f : InventoryItem → InventoryItem) (items : List InventoryItem)
    (assignments : List AssetAssignment)
    → ((i : InventoryItem) → (f i).id ≡ i.id)
    → All (Refers items) assignments
    → All (Refers (update_by p f items)) assignments
Refers-update_by p f items assignments h =
    All-map _ _ assignments (λ a r. any-update_by_key InventoryItem.id a.item_id p f items h ∙ r)

-- A change of items that keeps ids and units out, and the bound.
pub edited-IsBalanced :
    (p : InventoryItem → Bool) (f : InventoryItem → InventoryItem) (s : State)
    → ((i : InventoryItem) → ((f i).id ≡ i.id) × ((f i).units_out ≡ i.units_out))
    → ((i : InventoryItem)
        → In i s.items
        → p i ≡ true
        → i.units_out ≤ i.quantity
        → i.units_out ≤ (f i).quantity)
    → IsBalanced s
    → IsBalanced (record s { items = update_by p f s.items })
edited-IsBalanced p f s keep fits v = record {
  item_ids = Unique-update_by InventoryItem.id p f s.items (λ i. (keep i).0) v.item_ids;
  assignment_ids = v.assignment_ids;
  refers = Refers-update_by p f s.items s.assignments (λ i. (keep i).0) v.refers;
  adds_up =
      All-update_by (AddsUp s.assignments) (AddsUp s.assignments) p f s.items
        (λ i m h. edited i (Bool-cases (p i)) m h) v.adds_up;
}
  where
    edited :
        (i : InventoryItem)
        → (p i ≡ true) ⊎ (p i ≡ false)
        → In i s.items
        → AddsUp s.assignments i
        → AddsUp s.assignments (if p i then f i else i)
    edited i (inl e) m h = rw e (rw ((keep i).0, (keep i).1) h.0, rw (keep i).1 (fits i m e h.1))
    edited i (inr e) m h = rw e h

-- A row that clashes with none has an id of its own.
any_id_of_clash :
    (i : InventoryItem) (items : List InventoryItem)
    → any (clashes i) items ≡ false
    → any (keyed InventoryItem.id i.id) items ≡ false
any_id_of_clash i [] h = refl
any_id_of_clash i (x ∷ items) h = ground (arith, any_id_of_clash i items)

-- Deleting an item leaves the others where they are.
any-other_key :
    (n id : ℕ) (items : List InventoryItem)
    → (n == id) ≡ false
    → any (keyed InventoryItem.id n) (filter_by (λ i. not (i.id == id)) items)
      ≡ any (keyed InventoryItem.id n) items
any-other_key n id [] h = refl
any-other_key n id (x ∷ items) h = ground (arith, any-other_key n id items h)

module _ (db : Prisma) where
  -- Adding an item leaves the register balanced where it was: every item's units out are those of
  -- its open assignments and no more than its quantity, every assignment's item exists, and the
  -- ids are unique.
  pub create_item-IsBalanced :
      (school_id id : ℕ) (input : UpsertInventoryItemInput) (s : State)
      → IsBalanced s
      → IsBalanced (create_item db school_id id input s).1
  unfolding create_item
  create_item-IsBalanced school_id id input s v = ground (
    arith,
    db.create_lem clashes (new_item school_id id input) s.items,
    any-map InventoryItem.id id s.items,
    any_id_of_clash (new_item school_id id input) s.items,
    held-new-item id s.items s.assignments,
    All-map (Refers s.items) (Refers (new_item school_id id input ∷ s.items)) s.assignments
        (λ a r. ground (arith, r)),
  )

  -- A change of an item leaves the register balanced where it was, so its quantity never falls
  -- below what is out: every item's units out are those of its open assignments and no more than
  -- its quantity, every assignment's item exists, and the ids are unique.
  pub update_item-IsBalanced :
      (school_id id : ℕ) (input : UpsertInventoryItemInput) (s : State)
      → IsBalanced s
      → IsBalanced (update_item db school_id id input s).1
  unfolding update_item
  update_item-IsBalanced school_id id input s v =
      let own = λ (i : InventoryItem). i.id == id && i.school_id == school_id in
      elim (Option-cases (db.find_first own s.items)) [
        | inl e ↦ ground (arith, e)
        | inr (i, e) ↦
            let (m, q) = found_row db own s.items e in
            elim (Bool-cases (ltb input.quantity i.units_out)) [
              | inl short ↦ ground (arith, e, short)
              | inr enough ↦ ground (
                arith,
                e,
                enough,
                db.update_unique_lem (no_clash same_tag) (λ i. i.id == id) (edit_item input)
                    s.items,
                edited-IsBalanced (λ i. i.id == id) (edit_item input) s (λ x. (refl, refl))
                    (λ x n t h.
                      ground (arith, eq_of_key InventoryItem.id s.items x i v.item_ids n m, q))
                    v,
              )
            ]
      ]

  removed-IsBalanced :
      (id : ℕ) (s : State)
      → IsBalanced s
      → IsBalanced (record s {
        assignments = filter_by (λ a. not (a.item_id == id)) s.assignments;
        items = filter_by (λ i. not (i.id == id)) s.items;
      })
  removed-IsBalanced id s v = record {
    item_ids = Unique-filter_by InventoryItem.id _ s.items v.item_ids;
    assignment_ids = Unique-filter_by AssetAssignment.id _ s.assignments v.assignment_ids;
    refers =
        All-filter_by (Refers s.items) _ _ s.assignments
          (λ a t r. any-other_key a.item_id id s.items (ground arith) ∙ r) v.refers;
    adds_up =
        All-filter_by (AddsUp s.assignments) _ _ s.items
          (λ x t h.
            rw
              (sum-filter_by (held x.id) (λ a. not (a.item_id == id)) s.assignments
                (λ a g. ground arith))
              h)
          v.adds_up;
  }

  -- Deleting an item, whose assignments go with it, leaves the register balanced where it was:
  -- every item's units out are those of its open assignments and no more than its quantity, every
  -- assignment's item exists, and the ids are unique.
  pub remove_item-IsBalanced :
      (school_id id : ℕ) (s : State) → IsBalanced s → IsBalanced (remove_item db school_id id s).1
  unfolding remove_item
  remove_item-IsBalanced school_id id s v = ground (
    arith,
    db.delete_many_lem (λ a. a.item_id == id) s.assignments,
    db.delete_many_lem (λ i. i.id == id) s.items,
    removed-IsBalanced id s v,
  )
