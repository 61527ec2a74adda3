-- ===== src/Dnp3/Points/Labels.antt =====
-- How the points of a poll are labelled (dnp3/driver.py).
use mathlib.Core.Path.{subst}
use industrial_aiops_energy.Prelude.{
  ℕ, ◌+◌, ◌≡◌, ◌⊎◌, inl, inr, refl, arith, none, some, List, [], ◌∷◌, ◌++◌, map, length, Text, All,
  length-append, length-map, All-append, Option-cases, Bool-cases, codes, text_eq,
}
use industrial_aiops_energy.Python.{Runtime}
use industrial_aiops_energy.Dnp3.Points.{
  Collection, Item, Point, collection_of, collection_group, find_group, find_name, group_type,
  harvest_collection, label_of, measurement_type, on_item,
}

-- A point has a group and its name out of the table, or no group and a name that says so.
abbrev pub Labelled : Point → Type 0
Labelled p =
    ((group : ℕ) × (name : Text) × (p.group ≡ some group)
      × (find_name group_type group ≡ some name)
      × (p.type ≡ name))
    ⊎ ((p.group ≡ none)
        × ((class_name : Text) × (p.type ≡ codes "unknown_collection:" ++ class_name)))

abbrev Named : ℕ → Type 0
Named group = (label : Text) × (find_name group_type group ≡ some label)

-- What holds of all values of a table holds of one that is looked up.
find_group-All :
    (P : ℕ → Type 0) (table : List (Text × ℕ)) (name : Text) (group : ℕ)
    → All (λ entry. P entry.1) table
    → find_group table name ≡ some group
    → P group
unfolding find_group
find_group-All P [] name group all h = cc
find_group-All P ((k, v) ∷ rest) name group all h = elim (Bool-cases (text_eq k name)) [
  | inl hit ↦ let same : v ≡ group = ground arith in subst P same all.0
  | inr miss ↦ find_group-All P rest name group all.1 (rw miss at h)
]

-- Every group that a collection can have is in the table of names.
collection_group-Named : All (λ entry. Named entry.1) collection_group
unfolding find_name collection_group group_type
collection_group-Named = (
  (_, refl),
  (
    (_, refl),
    ((_, refl), ((_, refl), ((_, refl), ((_, refl), ((_, refl), ((_, refl), ((_, refl), tt))))))),
  ),
)

item-Labelled :
    (rt : Runtime) (class_name : Text) (item : Item)
    → Labelled (
        on_item rt
          (collection_of class_name)
          (label_of rt class_name (collection_of class_name))
          item)
unfolding collection_of on_item measurement_type
item-Labelled rt class_name item = elim (Option-cases (collection_of class_name)) [
  | inl unknown ↦ inr (unknown, (class_name, ground arith))
  | inr (group, e) ↦
      let (label, f) = find_group-All Named collection_group _ group collection_group-Named e in
      inl (group, label, e, f, ground arith)
]

items-Labelled :
    (rt : Runtime) (class_name : Text) (items : List Item)
    → All Labelled (
        map
          (on_item rt
            (collection_of class_name)
            (label_of rt class_name (collection_of class_name)))
          items)
items-Labelled rt class_name [] = tt
items-Labelled rt class_name (x ∷ xs) =
    (item-Labelled rt class_name x, items-Labelled rt class_name xs)

-- A harvest keeps the points that were there and adds one point for each item, and if all points
-- were labelled, with a group and its name or as of an unknown collection, they all are.
pub harvest_collection-Labelled :
    (rt : Runtime) (values : Collection) (out : List Point)
    → All Labelled out
    → All Labelled (harvest_collection rt values out)
      × (length (harvest_collection rt values out) ≡ length out + length values.items)
unfolding harvest_collection
harvest_collection-Labelled rt values out h =
    let group = collection_of values.class_name in
    let points = map (on_item rt group (label_of rt values.class_name group)) values.items in
    (
      All-append Labelled out points h (items-Labelled rt values.class_name values.items),
      omega (
        arith,
        length-append out points,
        length-map (on_item rt group (label_of rt values.class_name group)) values.items,
      ),
    )
