-- ===== src/Metadata.antt =====
-- `cwipc_metadata_impl` of cwipc_util/src/cwipc_util.cpp: the named blocks of memory that travel with
-- a point cloud. Pointers and deallocation functions are numbers. An index out of range, which the
-- source leaves undefined, gives `none`.
pub mod Ownership
use cwipc.Common.{ℕ, Option, none, some, List, [], ◌∷◌, ◌++◌, String, map, length, get_elem?}
use cwipc.Common.Int.{ℤ}
use cwipc.Words.{to_int}
use cwipc.World.{World, M}

-- `cwipc_metadata_impl::item`.
pub record Item : Type 0 where
  pub name : String
  pub description : String
  pub pointer : ℕ
  pub size : ℕ
  pub dealloc : ℕ

-- `m_items`.
abbrev pub Metadata : Type 0
Metadata = List Item

unfoldable pub count : Metadata → ℤ
count m = to_int (length m)

unfoldable pub item : Metadata → ℕ → Option Item
item m idx = get_elem? m idx

unfoldable pub add : Item → Metadata → Metadata
add new_item m = m ++ new_item ∷ []

-- `_move`: the source and the destination afterwards, which are two objects.
unfoldable pub move : Metadata → Metadata → Metadata × Metadata
move m other = ([], other ++ m)

-- The destructor deallocates each item in turn.
abbrev pub dealloc_calls : Metadata → List (ℕ × ℕ)
dealloc_calls = map λ i. (i.dealloc, i.pointer)

unfoldable pub destroy : Metadata → M (Unit {0})
destroy m w = (tt, record w { deallocs = w.deallocs ++ dealloc_calls m })
