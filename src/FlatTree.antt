-- ===== src/FlatTree.antt =====
-- src/process/flat_tree.hpp: the process tree in one vector, with left-child right-sibling links.
--
-- `entries` is the vector. `side_map` is the hash map from a PID to {index, PSN}, as a list of which a
-- key's first entry counts. Indices and counts are uint32 and stay far below 2 ^ 32 - 1, which marks
-- the absence of an index.
pub mod Entry
pub mod Links
pub mod SideMap
