-- ===== src/Labeling/Attributes.antt =====
-- The attribute nodes of Labeling/rtable.c: searching, creating and removing them.
use bgpmon.Base.{
  ℕ, ◌+◌, ◌*◌, List, [], ◌∷◌, Bool, true, false, Option, none, some, ◌&&◌, ◌==◌, ltb, length,
  if◌then◌else◌, Result, ok, dangling, or_fault, ◌>>=◌,
}
use bgpmon.Labeling.Heap.{Heap, load, store, free, occurs, erase}
use bgpmon.Labeling.Hash.{attr_hash}
use bgpmon.Labeling.State.{
  AsPath, AttrNode, Rib, same_bytes, used, unused, plus, minus, size_pointer, size_attr_node,
  size_prefix_ref_node,
}
use bgpmon.Labeling.Table.{link, unlink}

-- The bytes that a BGP update has for its routes, of which the first are the basic attributes.
pub record Attribute : Type 0 where
  pub basic_attrlen : ℕ
  pub bytes : List ℕ

unfoldable pub create_attr_node : ℕ → ℕ → AsPath → Attribute → Rib → ℕ × Rib
create_attr_node bucket path p attribute r =
    let a = r.next_address in
    let n : AttrNode = record {
      ref_count = 0;
      prefix_ref_node = [];
      as_path = path;
      bucket_index = bucket;
      basic_attr_len = attribute.basic_attrlen;
      total_attr_len = length attribute.bytes;
      attr = attribute.bytes;
    } in
    (
      a,
      used (size_attr_node + length attribute.bytes) (record r {
        next_address = a + 1;
        attributes = (a, n) ∷ r.attributes;
        paths = store r.paths path (record p { ref_count = plus 32 p.ref_count 1 });
        attribute_table = link bucket a r.attribute_table;
        stats = record r.stats { attr_count = plus 32 r.stats.attr_count 1 };
      }),
    )

-- What the loop of searchAttrNode leaves: the node itself, or another node with the same AS path,
-- if there is one, and the highest number of an AS path in the bucket.
pub data Search : Type 0 where
  hit : ℕ → Search
  miss : Option ℕ → ℕ → Search

unfoldable pub search_from : Rib → List ℕ → List ℕ → List ℕ → Option ℕ → ℕ → Result Search
search_from r path bytes [] tmp max_path_id = ok (miss tmp max_path_id)
search_from r path bytes (a ∷ as') tmp max_path_id =
    or_fault (load r.attributes a) dangling >>= λ n.
    or_fault (load r.paths n.as_path) dangling >>= λ p.
    let max' = if ltb max_path_id p.as_path_id then p.as_path_id else max_path_id in
    let same = search_from r path bytes as' (some a) max' in
    let other = search_from r path bytes as' tmp max' in
    if same_bytes p.as_path_data path
    then if (length bytes == n.total_attr_len) && same_bytes n.attr bytes then ok (hit a) else same
    else other

-- A node for the attributes: the one that has them, a new one with an AS path of the bucket, or a
-- new one with a new AS path.
unfoldable pub after_search : ℕ → List ℕ → Attribute → Rib → Search → Result (ℕ × Rib)
after_search i path attribute r (hit a) = ok (a, r)
after_search i path attribute r (miss (some b) max_path_id) =
    or_fault (load r.attributes b) dangling >>= λ n.
    or_fault (load r.paths n.as_path) dangling >>= λ p.
    ok (create_attr_node i n.as_path p attribute r)
after_search i path attribute r (miss none max_path_id) =
    let p : AsPath = record { as_path_data = path; as_path_id = max_path_id; ref_count = 0 } in
    ok (
      create_attr_node i r.next_address p attribute
        (record r { next_address = r.next_address + 1; paths = (r.next_address, p) ∷ r.paths }))

unfoldable pub search_attr_node : List ℕ → Attribute → Rib → Result (ℕ × Rib)
search_attr_node path attribute r =
    let i = attr_hash path r.attribute_table.table_size in
    search_from r path attribute.bytes (r.attribute_table.entries i).node none 0
    >>= after_search i path attribute r

-- removePefixFomAttr, which returns -1 where the prefix is not in the list. The size that it takes
-- off is that of a pointer.
unfoldable pub remove_prefix_from_attr : ℕ → ℕ → Rib → Result (Option Rib)
remove_prefix_from_attr x a r = or_fault (load r.attributes a) dangling >>= λ n.
    if occurs x n.prefix_ref_node == 0
    then ok none
    else ok (
        some (
          unused size_pointer (record r {
            attributes =
                store r.attributes a (record n { prefix_ref_node = erase n.prefix_ref_node x });
          })))

unfoldable pub destroy_attr_node : ℕ → Rib → Result Rib
destroy_attr_node a r = or_fault (load r.attributes a) dangling >>= λ n.
    or_fault (load r.paths n.as_path) dangling >>= λ p.
    let ref_count = minus 32 p.ref_count 1 in
    ok (
      unused (size_prefix_ref_node * length n.prefix_ref_node) (
        unused (size_attr_node + n.total_attr_len) (record r {
          paths =
              if ref_count == 0
              then free r.paths n.as_path
              else store r.paths n.as_path (record p { ref_count = ref_count });
          attributes = free r.attributes a;
        })))

-- The walk along a bucket to a node.
unfoldable pub find_node {ℓ} : {A : Type ℓ} → Heap A → List ℕ → ℕ → Result Bool
find_node h [] a = ok false
find_node h (b ∷ bs) a =
    let rest = or_fault (load h b) dangling >>= λ _. find_node h bs a in
    if a == b then ok true else rest

-- removeAttrNode, which returns -1 where the node is not in its bucket or in use.
unfoldable pub remove_attr_node : ℕ → Rib → Result (Option Rib)
remove_attr_node a r = or_fault (load r.attributes a) dangling >>= λ n.
    or_fault (load r.paths n.as_path) dangling >>= λ p.
    let i = attr_hash p.as_path_data r.attribute_table.table_size in
    find_node r.attributes (r.attribute_table.entries i).node a >>= λ found.
    if found && (n.ref_count == 0)
    then (destroy_attr_node a (record r { attribute_table = unlink i a r.attribute_table })
        >>= λ r'. ok (
            some (record r' {
              stats = record r'.stats { attr_count = minus 32 r'.stats.attr_count 1 };
            })))
    else ok none
