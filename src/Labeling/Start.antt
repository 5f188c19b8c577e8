-- ===== src/Labeling/Start.antt =====
-- The empty RIB (createPrefixTable and createAttributeTable in Labeling/rtable.c).
use bgpmon.Base.{ℕ, ◌+◌, ◌*◌, refl, []}
use bgpmon.Labeling.State.{
  Rib, Stats, used, size_prefix_table, size_attr_table, size_entry, size_attr_entry,
}
use bgpmon.Labeling.Table.{create_table}
use bgpmon.Labeling.Inv.{IsValid}

-- Both tables of a session, with their sizes and the highest number of nodes in a bucket.
abbrev pub create_rib : ℕ → ℕ → ℕ → ℕ → Stats → Rib
create_rib prefix_table_size attribute_table_size prefix_collision attr_collision stats =
    used (size_attr_table + attribute_table_size * size_attr_entry) (
      used (size_prefix_table + prefix_table_size * size_entry) (record {
        prefixes = [];
        attributes = [];
        paths = [];
        next_address = 1;
        prefix_table = create_table prefix_table_size prefix_collision;
        attribute_table = create_table attribute_table_size attr_collision;
        stats = stats;
      }))

-- The tables of a new session are valid.
pub create_rib-IsValid : (n m c d : ℕ) (stats : Stats) → IsValid (create_rib n m c d stats)
create_rib-IsValid n m c d stats = record {
  by_prefix = record {
    next_prefix = λ x le. refl;
    unique_prefix = tt;
    chain = λ i x. refl;
    keys = λ x y k l get. absurd (cc);
  };
  by_attr = record {
    next_attr = λ a le. refl;
    next_path = λ p le. refl;
    unique_attr = tt;
    unique_path = tt;
    chain = λ i a. refl;
    refs = λ a n get. absurd (cc);
    counts = λ a n get. absurd (cc);
    idle = λ a gone. refl;
    live = λ x m get. absurd (cc);
    bucket = λ a n get. absurd (cc);
    path_count = λ a p get. absurd (cc);
    ids = λ a p get. absurd (cc);
    sized = λ a n get. absurd (cc);
    distinct = λ a b n m p q get. absurd (cc);
  };
}
