-- ===== src/Ledger/Items.antt =====
-- Binding the current item and taking it back.
use jesterky.Prelude.{
  inr, inl, Option-cases, Result, List, ◌≡◌, Bool, ◌||◌, Option, none, some, String, str_eq, eq_iff,
  arith, if◌then◌else◌, Dict, lookup, insert, lookup-insert, lookup-remove,
}
use jesterky.Json.{Value}
use jesterky.Prelude.Text.{trim}
use jesterky.Ledger.Refs.{LedgerError, item_source_and_path}
use jesterky.Ledger.Paths.{walk_path}
use jesterky.Ledger.State.{Ref, with_item_as, resolve, Ledger, put_back, bind_item, restore_item}

-- The names that `bind_item name` binds.
abbrev pub is_bound : String → String → Bool
is_bound name k = str_eq name k || str_eq "item" k

-- Binding an item sets exactly its name and `item`, and leaves the slots alone.
pub bind_item_lem :
    (l : Ledger) (name : String) (item : Value) (k : String)
    → let l' = (bind_item l name item).1 in
      (lookup k l'.current_items
        ≡ (if is_bound name k then some item else lookup k l.current_items))
      × (l'.slots ≡ l.slots)
unfolding bind_item
bind_item_lem l name item k = ground (
  arith,
  lookup-insert name k item l.current_items,
  lookup-insert "item" k item (insert name item l.current_items),
  eq_iff name "item",
)

lookup-put_back :
    (name k : String) (previous : Option Value) (items : Dict Value)
    → lookup k (put_back name previous items) ≡ (if str_eq name k then previous else lookup k items)
lookup-put_back name k none items = lookup-remove name k items
lookup-put_back name k (some value) items = lookup-insert name k value items

-- Whatever happened to the ledger since an item was bound, `restore_item` gives the names of that
-- binding back what they held before, and changes no other item and no slot.
pub restore-bind :
    (l later : Ledger) (name : String) (item : Value) (k : String)
    → let back = restore_item later (bind_item l name item).0 in
      (lookup k back.current_items
        ≡ (if is_bound name k then lookup k l.current_items else lookup k later.current_items))
      × (back.slots ≡ later.slots)
unfolding bind_item restore_item
restore-bind l later name item k =
    let items = l.current_items in
    let first = put_back name (lookup name items) later.current_items in
    ground (
      arith,
      lookup-insert name "item" item items,
      lookup-put_back name k (lookup name items) later.current_items,
      lookup-put_back "item" k (lookup "item" items) first,
      eq_iff name "item",
      eq_iff name k,
      eq_iff "item" k,
    )

-- The path that a reference takes into an item bound as `name`, where it reads that binding.
abbrev pub bound_path : String → Option (String × List String) → Option (List String)
bound_path name (some (source, path)) = if is_bound name source then some path else none
bound_path name none = none

abbrev pub walk_or :
    Value → String → Result LedgerError Value → Option (List String) → Result LedgerError Value
walk_or item r other (some path) = walk_path item path r
walk_or item r other none = other

-- Under a binding a reference to the bound name or to `item` walks into the item; every other
-- reference, to a slot, to another item or a literal, resolves as it did before.
pub resolve-with_item_as :
    (from_str : String → Result String Value) (l : Ledger) (name : String) (item : Value) (r : Ref)
    → resolve from_str (with_item_as l name item) r
      ≡ walk_or item r (resolve from_str l r) (bound_path name (item_source_and_path (trim r)))
unfolding resolve with_item_as
resolve-with_item_as from_str l name item r = elim (Option-cases (item_source_and_path (trim r))) [
  | inl none_read ↦ rw none_read (ground (arith, bind_item_lem l name item ""))
  | inr (target, e) ↦ rw e (ground (arith, bind_item_lem l name item target.0))
]
