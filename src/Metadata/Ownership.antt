-- ===== src/Metadata/Ownership.antt =====
-- cwipc_util/src/cwipc_util.cpp: each metadata item is owned by one collection.
use mathlib.Core.List.{append-nil, map-append}
use cwipc.Common.{◌≡◌, [], ◌∷◌, ◌++◌}
use cwipc.Metadata.{Item, Metadata, add, move, destroy, dealloc_calls}
use cwipc.World.{World}

-- After an item was added to a collection and the collection was moved into another, destroying
-- both deallocates each item of the two once, in the order in which the destination holds them.
pub destroy-move :
    (src dest : Metadata) (i : Item) (w : World)
    → let (src', dest') = move (add i src) dest in
      (destroy dest' (destroy src' w).1).1.deallocs
      ≡ w.deallocs ++ (dealloc_calls dest ++ (dealloc_calls src ++ (i.dealloc, i.pointer) ∷ []))
unfolding destroy move add
destroy-move src dest i w = simp (map-append, append-nil)
