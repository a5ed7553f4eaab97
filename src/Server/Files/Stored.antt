-- ===== src/Server/Files/Stored.antt =====
-- What a file holds after the calls of src/server/Util.hpp that write it.
use async_log_cloud_storage.Base.{
  ℕ, ◌≤◌, ◌≡◌, refl, ap, sym, ◌∙◌, ◌≢◌, Bool, true, false, [], length, take-length, Text, text_eq,
  some, ok, arith,
}
use async_log_cloud_storage.Server.Zstd.{Zstd, ZstdLaws, string_max, pack, unpack, unpack-pack}
use async_log_cloud_storage.Server.Files.{
  file, Files, Disk, find_node, get_content, written_node, written, set_content, compress,
  uncompress,
}
use async_log_cloud_storage.Server.Files.Laws.{find_node-set_node, find_node-set_node_self}

-- The path holds a file of this content.
pub data Holds (p content : Text) (fs : Files) : Type 0 where
  holds :
      (atime mtime : ℕ)
      → find_node p fs.nodes ≡ some (file content atime mtime)
      → Holds p content fs

module _ (d : Disk) where
  -- A file that can be opened is read whole.
  pub get_content-Holds :
      (p content : Text) (fs : Files)
      → Holds p content fs
      → length content ≤ string_max
      → d.can_read p ≡ true
      → get_content d p fs ≡ ok (some content)
  unfolding get_content
  get_content-Holds p content fs (holds a m e) small readable =
      ground (arith, e, take-length content)

  set_content-written :
      (p content : Text) (fs : Files)
      → (set_content d content p fs).0 ≡ true
      → (set_content d content p fs).1 ≡ written d content p fs
  unfolding set_content
  set_content-written p content fs h = ground arith

  written-Holds :
      (p content : Text) (fs : Files)
      → d.writes p (length content) ≡ length content
      → Holds p content (written d content p fs)
  unfolding written written_node
  written-Holds p content fs whole =
      holds (elim (find_node p fs.nodes) [ some (file c atime mtime) ↦ atime | _ ↦ fs.now ]) fs.now
        (find_node-set_node_self p (written_node d p content fs) fs.nodes
          ∙ ap
              (λ (t : Text). some (
                file t
                  (elim (find_node p fs.nodes) [ some (file c atime mtime) ↦ atime | _ ↦ fs.now ])
                  fs.now))
              (rw whole (take-length content)))

  -- A write leaves the other paths alone, whether it succeeds or not.
  pub set_content-other :
      (p q content : Text) (fs : Files)
      → text_eq p q ≡ false
      → find_node q (set_content d content p fs).1.nodes ≡ find_node q fs.nodes
  unfolding set_content written
  set_content-other p q content fs other =
      ground (arith, other, find_node-set_node p q (written_node d p content fs) fs.nodes)

  -- A write that is taken whole leaves the file with the content, and touches no other path.
  pub set_content-Holds :
      (p content : Text) (fs : Files)
      → (set_content d content p fs).0 ≡ true
      → d.writes p (length content) ≡ length content
      → Holds p content (set_content d content p fs).1
        × ((q : Text)
            → text_eq p q ≡ false
            → find_node q (set_content d content p fs).1.nodes ≡ find_node q fs.nodes)
  unfolding written
  set_content-Holds p content fs h whole = rw (set_content-written p content fs h) (
    written-Holds p content fs whole,
    λ q other. find_node-set_node p q _ fs.nodes ∙ rw other refl,
  )

  pub compress_did :
      (z : Zstd) (content p : Text) (fs : Files)
      → (compress d z content p fs).0 ≡ true
      → (pack z content ≢ []) × (compress d z content p fs ≡ set_content d (pack z content) p fs)
  unfolding compress
  compress_did z content p fs h = (λ e. absurd (ground (arith, ap length e)), ground arith)

  pub uncompress-read :
      (z : Zstd) (download_path p bytes content : Text) (fs : Files)
      → get_content d p fs ≡ ok (some bytes)
      → unpack z bytes ≡ ok content
      → uncompress d z download_path p fs ≡ ok (set_content d content download_path fs)
  unfolding uncompress
  uncompress-read z download_path p bytes content fs e u = rw e (rw u refl)

  -- What `Compress` stored under one path, written whole and readable, `UnCompress` writes out under
  -- another, where zstd keeps its laws and both forms fit a string.
  pub uncompress-compress :
      (z : Zstd) (content p download_path : Text) (fs : Files)
      → ZstdLaws z
      → length content ≤ string_max
      → length (pack z content) ≤ string_max
      → (compress d z content p fs).0 ≡ true
      → d.writes p (length (pack z content)) ≡ length (pack z content)
      → d.can_read p ≡ true
      → uncompress d z download_path p (compress d z content p fs).1
        ≡ ok (set_content d content download_path (compress d z content p fs).1)
  uncompress-compress z content p download_path fs laws small small_packed did whole readable =
      let (nonempty, ran) = compress_did z content p fs did in
      let (stored, _) =
        set_content-Holds p (pack z content) fs (ap (λ (r : Bool × Files). r.0) (sym ran) ∙ did)
          whole in
      rw ran (
        uncompress-read z download_path p (pack z content) content _
          (get_content-Holds p (pack z content) _ stored small_packed readable)
          (unpack-pack z laws content (pack z content) small refl nonempty))
