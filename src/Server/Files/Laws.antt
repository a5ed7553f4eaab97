-- ===== src/Server/Files/Laws.antt =====
-- Reading and writing nodes of the file system of src/server/Util.hpp.
use async_log_cloud_storage.Base.{
  ◌≡◌, refl, List, [], ◌∷◌, if◌then◌else◌, Text, text_eq, text_eq_iff, text_eq_self, some, arith,
}
use async_log_cloud_storage.Server.Files.{Node, find_node, set_node}

pub find_node-set_node :
    (p q : Text) (n : Node) (nodes : List (Text × Node))
    → find_node q (set_node p n nodes) ≡ (if text_eq p q then some n else find_node q nodes)
unfolding find_node set_node
find_node-set_node p q n [] = refl
find_node-set_node p q n ((r, m) ∷ nodes) =
    ground
      (arith, text_eq_iff p q, text_eq_iff r p, text_eq_iff r q, find_node-set_node p q n nodes)

pub find_node-set_node_self :
    (p : Text) (n : Node) (nodes : List (Text × Node)) → find_node p (set_node p n nodes) ≡ some n
find_node-set_node_self p n nodes = rw (find_node-set_node p p n nodes, text_eq_self p) refl
