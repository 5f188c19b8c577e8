-- ===== src/Labeling/Prefixes.antt =====
-- How an announced or withdrawn prefix changes the RIB and is labelled (Labeling/rtable.c).
use bgpmon.Base.{
  ℕ, ◌+◌, List, [], ◌∷◌, ◌++◌, Bool, false, Option, none, some, ◌==◌, leb, length, if◌then◌else◌,
  Result, ok, dangling, log_fatal, or_fault, ◌>>=◌,
}
use bgpmon.Labeling.Heap.{Heap, load, store, free}
use bgpmon.Labeling.Hash.{prefix_hash}
use bgpmon.Labeling.State.{
  Prefix, PrefixNode, Stats, Rib, same_bytes, prefix_bytes, used, unused, plus, minus, prefix_size,
  size_prefix_node, size_prefix_ref_node,
}
use bgpmon.Labeling.Table.{link, unlink}
use bgpmon.Labeling.Attributes.{remove_prefix_from_attr, remove_attr_node}

pub data Label : Type 0 where
  withdraw withdraw_duplicate announce_new announce_duplicate announce_dpath announce_spath : Label

abbrev pub label_byte : Label → ℕ
label_byte withdraw = 1
label_byte withdraw_duplicate = 2
label_byte announce_new = 3
label_byte announce_duplicate = 4
label_byte announce_dpath = 5
label_byte announce_spath = 6

-- The bytes of a BMF message.
abbrev pub Bmf : Type 0
Bmf = List ℕ

abbrev pub bmf_max_msg_len : ℕ
bmf_max_msg_len = 8192

-- bgpmonMessageAppend: what does not fit is left out.
unfoldable pub bgpmon_message_append : Bmf → List ℕ → Bmf
bgpmon_message_append m [] = m
bgpmon_message_append m (b ∷ bs) =
    if leb (length m + length (b ∷ bs)) bmf_max_msg_len then m ++ (b ∷ bs) else m

-- A label is appended to the message, if there is one.
abbrev pub labelled : Option Bmf → Label → Option Bmf
labelled none l = none
labelled (some m) l = some (bgpmon_message_append m (label_byte l ∷ []))

abbrev pub count_label : Label → Stats → Stats
count_label announce_new s = record s { nann_rcvd = s.nann_rcvd + 1 }
count_label announce_duplicate s = record s { dann_rcvd = s.dann_rcvd + 1 }
count_label announce_dpath s = record s { dpath_rcvd = s.dpath_rcvd + 1 }
count_label announce_spath s = record s { spath_rcvd = s.spath_rcvd + 1 }
count_label withdraw s = record s { with_rcvd = s.with_rcvd + 1 }
count_label withdraw_duplicate s = record s { duwi_rcvd = s.duwi_rcvd + 1 }

abbrev pub noted : Label → Rib → Rib
noted l r = record r { stats = count_label l r.stats }

-- The walk along a bucket to the node of a prefix.
unfoldable pub find_prefix : Heap PrefixNode → List ℕ → Prefix → Result (Option ℕ)
find_prefix h [] p = ok none
find_prefix h (a ∷ as') p = or_fault (load h a) dangling >>= λ n.
    let rest = find_prefix h as' p in
    if same_bytes (prefix_bytes p) (prefix_bytes n.key_prefix) then ok (some a) else rest

abbrev pub bucket_of : Prefix → Rib → ℕ
bucket_of p r = prefix_hash (prefix_bytes p) r.prefix_table.table_size

-- A prefix enters the list of an attribute node.
unfoldable pub attach : ℕ → ℕ → Rib → Result Rib
attach x a r = or_fault (load r.attributes a) dangling >>= λ n. ok (
    used size_prefix_ref_node (record r {
      attributes =
          store r.attributes a (record n {
            ref_count = plus 16 n.ref_count 1;
            prefix_ref_node = x ∷ n.prefix_ref_node;
          });
    }))

-- The count of references of an attribute node goes down.
abbrev pub release : ℕ → Rib → Result Rib
release a r = or_fault (load r.attributes a) dangling >>= λ n. ok (record r {
  attributes = store r.attributes a (record n { ref_count = minus 16 n.ref_count 1 });
})

-- An attribute node that no prefix uses any more is removed; a failure is only logged.
unfoldable pub collect : ℕ → Rib → Result Rib
collect a r = or_fault (load r.attributes a) dangling >>= λ n.
    let removed = remove_attr_node a r >>= or_same in if n.ref_count == 0 then removed else ok r
  where
    or_same : Option Rib → Result Rib
    or_same none = ok r
    or_same (some r') = ok r'

unfoldable pub announce_unknown : Prefix → ℕ → ℕ → ℕ → Rib → Result Rib
announce_unknown p a ts i r =
    let x = r.next_address in
    let node : PrefixNode = record { data_attr = a; originated_ts = ts; key_prefix = p } in
    attach x a (
      used (size_prefix_node + prefix_size p.p_len)
        (record r { next_address = x + 1; prefixes = (x, node) ∷ r.prefixes }))
    >>= λ r'. ok (record r' {
      prefix_table = link i x r'.prefix_table;
      stats = record r'.stats { prefix_count = plus 32 r'.stats.prefix_count 1 };
    })

-- Whether two attribute nodes have the same AS path, as the code sees it.
unfoldable pub same_path : ℕ → ℕ → Rib → Result Bool
same_path a b r = or_fault (load r.attributes a) dangling >>= λ n.
    or_fault (load r.attributes b) dangling >>= λ m.
    let ids = or_fault (load r.paths n.as_path) dangling >>= λ p.
    or_fault (load r.paths m.as_path) dangling >>= λ q. ok (p.as_path_id == q.as_path_id) in
    if n.bucket_index == m.bucket_index then ids else ok false

-- The prefix leaves the list of its old attribute node for that of a new one.
unfoldable pub move_prefix : ℕ → PrefixNode → ℕ → ℕ → Rib → Result Rib
move_prefix x node a ts r =
    release node.data_attr r >>= remove_prefix_from_attr x node.data_attr >>= λ removed.
    or_fault removed log_fatal >>= collect node.data_attr >>= λ r'. attach x a (record r' {
      prefixes = store r'.prefixes x (record node { data_attr = a; originated_ts = ts });
    })

unfoldable pub announce_known :
    ℕ → PrefixNode → ℕ → ℕ → Rib → Option Bmf → Result (Rib × Option Bmf)
announce_known x node a ts r bmf =
    let duplicate = record r {
      prefixes = store r.prefixes x (record node { originated_ts = ts });
    } in
    let changed = same_path node.data_attr a r >>= λ same.
    let l = if same then announce_spath else announce_dpath in
    move_prefix x node a ts (noted l r) >>= λ r'. ok (r', labelled bmf l) in
    if node.data_attr == a
    then ok (noted announce_duplicate duplicate, labelled bmf announce_duplicate)
    else changed

unfoldable pub announce : Prefix → ℕ → ℕ → Rib → Option Bmf → Option ℕ → Result (Rib × Option Bmf)
announce p a ts r bmf none =
    announce_unknown p a ts (bucket_of p r) (noted announce_new r) >>= λ r'.
    ok (r', labelled bmf announce_new)
announce p a ts r bmf (some x) =
    or_fault (load r.prefixes x) dangling >>= λ node. announce_known x node a ts r bmf

unfoldable pub apply_reachable_prefix :
    Prefix → ℕ → ℕ → Rib → Option Bmf → Result (Rib × Option Bmf)
apply_reachable_prefix p a ts r bmf =
    find_prefix r.prefixes (r.prefix_table.entries (bucket_of p r)).node p >>= announce p a ts r bmf

-- The prefix leaves its attribute node and its bucket. A failure to find it in the list of the
-- attribute node is only logged.
unfoldable pub forget_prefix : ℕ → PrefixNode → ℕ → Rib → Result Rib
forget_prefix x node i r = release node.data_attr r >>= λ r1.
    remove_prefix_from_attr x node.data_attr r1 >>= λ removed.
    collect node.data_attr (or_same r1 removed) >>= λ r'. ok (
      unused (size_prefix_node + prefix_size node.key_prefix.p_len) (record r' {
        prefixes = free r'.prefixes x;
        prefix_table = unlink i x r'.prefix_table;
        stats = record r'.stats { prefix_count = minus 32 r'.stats.prefix_count 1 };
      }))
  where
    or_same : Rib → Option Rib → Rib
    or_same r1 none = r1
    or_same r1 (some r2) = r2

unfoldable pub withdraw_found : ℕ → Rib → Option Bmf → Option ℕ → Result (Rib × Option Bmf)
withdraw_found i r bmf none = ok (noted withdraw_duplicate r, labelled bmf withdraw_duplicate)
withdraw_found i r bmf (some x) = or_fault (load r.prefixes x) dangling >>= λ node.
    forget_prefix x node i (noted withdraw r) >>= λ r'. ok (r', labelled bmf withdraw)

unfoldable pub apply_unreachable_prefix : Prefix → Rib → Option Bmf → Result (Rib × Option Bmf)
apply_unreachable_prefix p r bmf =
    find_prefix r.prefixes (r.prefix_table.entries (bucket_of p r)).node p
    >>= withdraw_found (bucket_of p r) r bmf
