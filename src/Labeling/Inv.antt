-- ===== src/Labeling/Inv.antt =====
-- The invariant of a RIB: its two hash tables and the structures that they point to.
use bgpmon.Base.{ℕ, ◌+◌, ◌≤◌, ◌<◌, ◌≡◌, ◌%◌, ◌^◌, List, Option, none, some, ◌==◌, length}
use bgpmon.Labeling.Heap.{Heap, one, load, count_if, Unique, occurs}
use bgpmon.Labeling.Hash.{prefix_hash, attr_hash}
use bgpmon.Labeling.State.{Prefix, PrefixNode, AsPath, AttrNode, Table, Rib, prefix_bytes}
pub mod Release
pub mod Buckets
pub mod Detach
pub mod Attach
pub mod Collect
pub mod Unused
pub mod Create
pub mod NewPath
pub mod Prefixes
pub mod Walk
pub mod Search
pub mod Made
pub mod Lookup
pub mod Views
pub mod Withdraw
pub mod Fresh
pub mod Again
pub mod Moved
pub mod Announce

-- One if the prefix node at an address has the attribute node at a.
abbrev pub points : Option PrefixNode → ℕ → ℕ
points none a = 0
points (some n) a = one (n.data_attr == a)

-- How many prefix nodes have the attribute node at a.
abbrev pub users : Heap PrefixNode → ℕ → ℕ
users h a = count_if (λ n. n.data_attr == a) h

-- How many attribute nodes have the AS path at p.
abbrev pub sharers : Heap AttrNode → ℕ → ℕ
sharers h p = count_if (λ n. n.as_path == p) h

abbrev pub attr_home : Option AttrNode → ℕ → ℕ
attr_home none i = 0
attr_home (some n) i = one (n.bucket_index == i)

abbrev pub prefix_home : ℕ → Option PrefixNode → ℕ → ℕ
prefix_home size none i = 0
prefix_home size (some n) i = one (prefix_hash (prefix_bytes n.key_prefix) size == i)

-- The attribute table: each node is once in the bucket of its AS path and nowhere else, lists the
-- prefixes that have it, once each, counts them and has an AS path that counts its nodes; no two
-- nodes have the same AS path and attributes.
pub record AttrSide (h : Heap PrefixNode) (next : ℕ) (attrs : Heap AttrNode) (paths : Heap AsPath)
    (t : Table) : Type 0 where
  pub next_attr : (a : ℕ) → next ≤ a → load attrs a ≡ none
  pub next_path : (p : ℕ) → next ≤ p → load paths p ≡ none
  pub unique_attr : Unique attrs
  pub unique_path : Unique paths
  pub chain : (i a : ℕ) → occurs a (t.entries i).node ≡ attr_home (load attrs a) i
  pub refs :
      (a : ℕ) (n : AttrNode)
      → load attrs a ≡ some n
      → (x : ℕ) → occurs x n.prefix_ref_node ≡ points (load h x) a
  pub counts : (a : ℕ) (n : AttrNode) → load attrs a ≡ some n → n.ref_count ≡ users h a % 2 ^ 16
  pub idle : (a : ℕ) → load attrs a ≡ none → users h a ≡ 0
  pub live :
      (x : ℕ) (m : PrefixNode)
      → load h x ≡ some m
      → (n : AttrNode) × (load attrs m.data_attr ≡ some n)
  pub bucket :
      (a : ℕ) (n : AttrNode)
      → load attrs a ≡ some n
      → (p : AsPath) × (load paths n.as_path ≡ some p)
        × (n.bucket_index ≡ attr_hash p.as_path_data t.table_size)
  pub path_count :
      (a : ℕ) (p : AsPath) → load paths a ≡ some p → p.ref_count ≡ sharers attrs a % 2 ^ 32
  pub ids : (a : ℕ) (p : AsPath) → load paths a ≡ some p → p.as_path_id ≡ 0
  pub sized : (a : ℕ) (n : AttrNode) → load attrs a ≡ some n → n.total_attr_len ≡ length n.attr
  pub distinct :
      (a b : ℕ) (n m : AttrNode) (p q : AsPath)
      → load attrs a ≡ some n
      → load attrs b ≡ some m
      → load paths n.as_path ≡ some p
      → load paths m.as_path ≡ some q
      → p.as_path_data ≡ q.as_path_data
      → n.attr ≡ m.attr
      → a ≡ b

-- The prefix table: each node is once in the bucket of its prefix, and no prefix has two nodes.
pub record PrefixSide (next : ℕ) (h : Heap PrefixNode) (t : Table) : Type 0 where
  pub next_prefix : (x : ℕ) → next ≤ x → load h x ≡ none
  pub unique_prefix : Unique h
  pub chain : (i x : ℕ) → occurs x (t.entries i).node ≡ prefix_home t.table_size (load h x) i
  pub keys :
      (x y : ℕ) (n m : PrefixNode)
      → load h x ≡ some n
      → load h y ≡ some m
      → n.key_prefix ≡ m.key_prefix
      → x ≡ y

pub record IsValid (r : Rib) : Type 0 where
  pub by_prefix : PrefixSide r.next_address r.prefixes r.prefix_table
  pub by_attr : AttrSide r.prefixes r.next_address r.attributes r.paths r.attribute_table

-- The counters of the nodes do not overflow.
pub record IsSmall (r : Rib) : Type 0 where
  pub few_prefixes : length r.prefixes < 2 ^ 16
  pub few_attributes : length r.attributes < 2 ^ 32
