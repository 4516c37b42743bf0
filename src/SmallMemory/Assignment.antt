-- ===== src/SmallMemory/Assignment.antt =====
-- The copy assignment of cjunk/trivialJson/SmallMemoryModel.cpp.
use cpp_examples.Prelude.{◌≡◌, refl, ap, ap₂}
use cpp_examples.SmallMemory.{
  JsonNode, NodeList, NodeMap, null, boolean, long, double, small, string, map, list, nil, node,
  empty, entry, copy, copy_list, copy_map,
}

module _ {Double : Type 0} where
  mutual
    unfolding copy

    copy-same : (n : JsonNode Double) → copy n ≡ n
    copy-same null = refl
    copy-same (boolean b) = refl
    copy-same (long i) = refl
    copy-same (double d) = refl
    copy-same (small s) = refl
    copy-same (string s) = refl
    copy-same (map entries) = ap map (copy_map-same entries)
    copy-same (list nodes) = ap list (copy_list-same nodes)

    copy_list-same : (ns : NodeList Double) → copy_list ns ≡ ns
    copy_list-same nil = refl
    copy_list-same (node n rest) = ap₂ node (copy-same n) (copy_list-same rest)

    copy_map-same : (ns : NodeMap Double) → copy_map ns ≡ ns
    copy_map-same empty = refl
    copy_map-same (entry key value rest) = ap₂ (entry key) (copy-same value) (copy_map-same rest)
