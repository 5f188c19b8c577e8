-- ===== src/Labeling/Table.antt =====
-- How nodes enter and leave the buckets of the two hash tables of Labeling/rtable.c.
use bgpmon.Base.{ℕ, List, [], ◌∷◌, update}
use bgpmon.Labeling.Heap.{erase}
use bgpmon.Labeling.State.{Table, plus, minus, maxv}

abbrev pub is_empty {ℓ} : {A : Type ℓ} → List A → ℕ
is_empty [] = 1
is_empty (x ∷ xs) = 0

-- A new node becomes the head of its bucket.
unfoldable pub link : ℕ → ℕ → Table → Table
link i a t =
    let e = t.entries i in
    let node_count = plus 16 e.node_count 1 in
    record t {
      ocupied_size = plus 32 t.ocupied_size (is_empty e.node);
      entries = update t.entries i (record { node = a ∷ e.node; node_count = node_count });
      max_node_count = maxv t.max_node_count node_count;
      count = plus 32 t.count 1;
    }

unfoldable pub unlink : ℕ → ℕ → Table → Table
unlink i a t =
    let e = t.entries i in
    let node = erase e.node a in
    record t {
      ocupied_size = minus 32 t.ocupied_size (is_empty node);
      entries = update t.entries i (record { node = node; node_count = minus 16 e.node_count 1 });
      count = minus 32 t.count 1;
    }

-- createPrefixTable and createAttributeTable.
abbrev pub create_table : ℕ → ℕ → Table
create_table table_size max_collision = record {
  count = 0;
  table_size = table_size;
  ocupied_size = 0;
  max_node_count = 0;
  max_collision = max_collision;
  entries = λ _. record { node = []; node_count = 0 };
}
