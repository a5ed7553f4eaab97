-- ===== src/Server/Frame.antt =====
-- What the calls of src/server/Util.hpp leave alone: a path that they are not given.
use mathlib.Core.Path.{subst}
use async_log_cloud_storage.Base.{
  ◌≡◌, refl, sym, ◌∙◌, ap, inl, inr, Bool, true, false, Bool-cases, List, [], ◌∷◌, ◌++◌, append-nil,
  Text, text_eq, text_eq_iff, starts_with, starts_with-append, Option, none, some, ok, ◌>>=◌,
  Ensures, Ensures-bind, Ensures-any, arith,
}
use async_log_cloud_storage.Server.Zstd.{Zstd, pack, unpack}
use async_log_cloud_storage.Server.Files.{
  Node, directory, Files, Disk, find_node, remove_node, remove_path, set_content, compress,
  get_content, uncompress, create_directory,
}
use async_log_cloud_storage.Server.Files.Laws.{find_node-set_node}
use async_log_cloud_storage.Server.Files.Stored.{set_content-other}

-- The path names the same before and after.
abbrev pub SameAt : Text → Files → Files → Type 0
SameAt q before after = find_node q after.nodes ≡ find_node q before.nodes

-- No path below a directory is one that does not start with its name.
pub text_eq-below :
    (dir name q : Text) → starts_with dir q ≡ false → text_eq (dir ++ name) q ≡ false
text_eq-below dir name q away = elim (Bool-cases (text_eq (dir ++ name) q)) [
  | inl same ↦ absurd (
      below (
        subst (λ p. starts_with dir p ≡ true) ((text_eq_iff (dir ++ name) q).0 same)
          (starts_with-append dir name)))
  | inr other ↦ other
]
  where
    below : starts_with dir q ≡ true → ⊥
    below h = cc

pub text_eq-directory : (dir q : Text) → starts_with dir q ≡ false → text_eq dir q ≡ false
text_eq-directory dir q away =
    ap (λ (p : Text). text_eq p q) (sym (append-nil dir)) ∙ text_eq-below dir [] q away

find_node-remove_node :
    (p q : Text) (nodes : List (Text × Node))
    → text_eq p q ≡ false
    → find_node q (remove_node p nodes) ≡ find_node q nodes
unfolding find_node remove_node
find_node-remove_node p q [] other = refl
find_node-remove_node p q ((r, n) ∷ nodes) other = ground (
  arith,
  text_eq_iff r p,
  text_eq_iff r q,
  text_eq_iff p q,
  find_node-remove_node p q nodes other,
)

pub remove_path-SameAt :
    (p q : Text) (fs : Files) → text_eq p q ≡ false → SameAt q fs (remove_path p fs)
unfolding remove_path
remove_path-SameAt p q fs other = ground (arith, find_node-remove_node p q fs.nodes other)

module _ (d : Disk) where
  pub create_directory-SameAt :
      (p q : Text) (fs : Files)
      → text_eq p q ≡ false
      → Ensures (λ made. SameAt q fs made.1) (create_directory d p fs)
  unfolding create_directory
  create_directory-SameAt p q fs other = ground (arith, find_node-set_node p q directory fs.nodes)

  pub compress-SameAt :
      (z : Zstd) (content p q : Text) (fs : Files)
      → text_eq p q ≡ false
      → SameAt q fs (compress d z content p fs).1
  unfolding compress
  compress-SameAt z content p q fs other =
      ground (arith, set_content-other d p q (pack z content) fs other)

  pub uncompress-SameAt :
      (z : Zstd) (download_path p q : Text) (fs : Files)
      → text_eq download_path q ≡ false
      → Ensures (λ (r : Bool × Files). SameAt q fs r.1) (uncompress d z download_path p fs)
  unfolding uncompress
  uncompress-SameAt z download_path p q fs other =
      Ensures-bind (λ _. Unit {0}) (λ (r : Bool × Files). SameAt q fs r.1) (get_content d p fs) _
        (Ensures-any (get_content d p fs)) (λ body _. written body)
    where
      unpacked :
          (bytes : Text)
          → Ensures
              (λ (r : Bool × Files). SameAt q fs r.1)
              (unpack z bytes >>= λ content. ok (set_content d content download_path fs))
      unpacked bytes =
          Ensures-bind (λ _. Unit {0}) (λ (r : Bool × Files). SameAt q fs r.1) (unpack z bytes) _
            (Ensures-any (unpack z bytes))
            (λ content _. set_content-other d download_path q content fs other)

      written :
          (body : Option Text)
          → Ensures
              (λ (r : Bool × Files). SameAt q fs r.1)
              (elim body [
                | none ↦ ok (false, fs)
                | some bytes ↦
                    unpack z bytes >>= λ content. ok (set_content d content download_path fs)
              ])
      written none = refl
      written (some bytes) = unpacked bytes
