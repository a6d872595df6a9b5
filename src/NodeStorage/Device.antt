-- ===== src/NodeStorage/Device.antt =====
-- roles/node_storage/filter_plugins/node_storage.py: the tree that `lsblk -J` prints.
use ansible_install.Prelude.{String, Option, none, some, List, [], ◌∷◌, ◌++◌}
use ansible_install.Prelude.Split.{sorted}
use ansible_install.Prelude.Lists.{select}
use ansible_install.NodeStorage.Paths.{text_or, is_set}

-- One device: a missing key and a JSON null are both `none`.
pub record Info : Type 0 where
  pub name : Option String
  pub path : Option String
  pub type : Option String
  pub fstype : Option String
  pub mountpoints : Option (List (Option String))
  pub mountpoint : Option String

mutual
  pub data Node : Type 0 where
    node : Info → Nodes → Node

  pub data Nodes : Type 0 where
    nil : Nodes
    cons : Node → Nodes → Nodes

abbrev pub info : Node → Info
info (node i children) = i

abbrev pub children_of : Node → Nodes
children_of (node i children) = children

abbrev named : List (Option String) → List String
named [] = []
named (none ∷ ps) = named ps
named (some p ∷ ps) = p ∷ named ps

-- `points` after the fallback to the single key of older releases.
abbrev listed_points : Info → List (Option String)
listed_points i = elim i.mountpoints [
  | some points ↦ points
  | none ↦ elim i.mountpoint [ some point ↦ some point ∷ [] | none ↦ [] ]
]

unfoldable pub mountpoints : Info → List String
unfolding is_set
mountpoints i = select (λ p. is_set (some p)) (named (listed_points i))

unfoldable mutual
  pub walk : Node → List Info
  walk (node i children) = i ∷ walk_children children

  pub walk_children : Nodes → List Info
  walk_children nil = []
  walk_children (cons child rest) = walk child ++ walk_children rest

-- The device's path, its name if it has no path, and otherwise `d`.
unfoldable pub title : Info → String → String
unfolding text_or
title i d = text_or i.path (text_or i.name d)

titles : Nodes → List String
titles nil = []
titles (cons child rest) = title (info child) "?" ∷ titles rest

-- The devices stacked on this one, as the refusal prints them.
unfoldable pub held_by : Nodes → List String
unfolding titles title
held_by children = sorted (titles children)
