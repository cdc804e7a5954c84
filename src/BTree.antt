-- ===== src/BTree.antt =====
-- The standard library's `BTreeSet<String>` and `BTreeMap<String, V>`, as the modelled code uses them:
-- the ascending list of the members, and the list of the entries with ascending keys.
pub mod Set
pub mod Map
pub mod Count
pub mod Before
