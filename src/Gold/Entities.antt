-- ===== src/Gold/Entities.antt =====
-- The entity of an address in `build_top_whales_daily` of gold/transform/top_whales_daily.py.
use eth_project.Prelude.{
  ℕ, ◌≡◌, refl, ap, ◌∙◌, String, str_eq, Bool, false, ◌&&◌, ◌||◌, not, Option, none, some, List, [],
  ◌∷◌, ◌++◌, map, ltb, if◌then◌else◌, length, select, any_of, arith,
}
use eth_project.Frame.{Address, IsReordering, same_key, of_key}
use eth_project.Frame.Orders.{any_of_reordered}
use eth_project.Silver.Whales.{WhaleTxn}

-- A row of `combined_entities` without its date, and one of the groups that are counted.
pub record Entity : Type 0 where
  pub address : Address
  pub entity_name : String
  pub entity_category : String

unfoldable pub from_entity_row : WhaleTxn → Entity
from_entity_row r = record {
  address = r.from_address;
  entity_name = r.from_entity;
  entity_category = r.from_category;
}

unfoldable pub to_entity_row : WhaleTxn → Entity
to_entity_row r = record {
  address = r.to_address;
  entity_name = r.to_entity;
  entity_category = r.to_category;
}

abbrev pub is_not_null : Entity → Bool
is_not_null e = not (same_key e.address none)

unfoldable pub combined_entities : List WhaleTxn → List Entity
combined_entities rows =
    select is_not_null (map from_entity_row rows) ++ select is_not_null (map to_entity_row rows)

abbrev pub same_entity : Entity → Entity → Bool
same_entity e f =
    same_key e.address f.address
    && (str_eq e.entity_name f.entity_name && str_eq e.entity_category f.entity_category)

-- `_cnt` of a row's group.
unfoldable pub entity_count : List Entity → Entity → ℕ
entity_count rows e = length (select (same_entity e) rows)

unfoldable pub is_known : Entity → Bool
is_known e = not (str_eq e.entity_name "Unknown")

-- The order of the window: a name that is known before "Unknown", then the larger count.
unfoldable pub entity_before : List Entity → Entity → Entity → Bool
entity_before rows e f =
    if is_known e
    then not (is_known f) || ltb (entity_count rows f) (entity_count rows e)
    else not (is_known f) && ltb (entity_count rows f) (entity_count rows e)

unfoldable pub better : List Entity → Entity → Option Entity → Option Entity
better rows e none = some e
better rows e (some f) = if entity_before rows f e then some f else some e

-- The first row of the window, where rows that are equal in its order stand as they come.
unfoldable pub first_entity : List Entity → List Entity → Option Entity
first_entity rows [] = none
first_entity rows (e ∷ es) = better rows e (first_entity rows es)

abbrev pub Arrange : Type 0
Arrange = List Entity → List Entity

-- The row of `entity_map` for an address, in the order `arrange` in which Spark presents the rows.
unfoldable pub entity_of : Arrange → List WhaleTxn → Address → Option Entity
entity_of arrange rows a =
    let mine = of_key Entity.address a (combined_entities rows) in first_entity mine (arrange mine)

-- The entity of a row of the left join; null joins with nothing.
unfoldable pub joined_entity : Arrange → List WhaleTxn → Address → Option Entity
joined_entity arrange rows none = none
joined_entity arrange rows (some a) = entity_of arrange rows (some a)

abbrev pub known_choice : Option Entity → Bool
known_choice none = false
known_choice (some e) = is_known e

known-better :
    (rows : List Entity) (e : Entity) (f : Option Entity)
    → known_choice (better rows e f) ≡ (is_known e || known_choice f)
unfolding better entity_before
known-better rows e none = ground arith
known-better rows e (some f) = ground arith

known-first_entity :
    (rows es : List Entity) → known_choice (first_entity rows es) ≡ any_of is_known es
unfolding first_entity
known-first_entity rows [] = refl
known-first_entity rows (e ∷ es) =
    known-better rows e (first_entity rows es)
    ∙ ap (λ b. is_known e || b) (known-first_entity rows es)

-- If Spark presents each row once, in whatever order, then the entity chosen for an address has a known name just when some row of the address has one.
pub entity_of-Known :
    (arrange : Arrange) (rows : List WhaleTxn) (a : Address)
    → IsReordering arrange
    → known_choice (entity_of arrange rows a)
      ≡ any_of is_known (of_key Entity.address a (combined_entities rows))
unfolding entity_of
entity_of-Known arrange rows a same =
    let mine = of_key Entity.address a (combined_entities rows) in
    known-first_entity mine (arrange mine) ∙ any_of_reordered is_known (same mine)
