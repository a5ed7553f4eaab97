-- ===== src/Server/Data/Items.antt =====
-- The JSON array that `Storage` of src/server/DataManager.hpp builds, and its items as `InitLoad` reads
-- them.
use async_log_cloud_storage.Base.{
  ℕ, ◌+◌, ◌<◌, ◌≡◌, refl, ◌∙◌, List, [], ◌∷◌, length, if◌then◌else◌, Text, codes, text_eq, c_str,
  ok, arith,
}
use async_log_cloud_storage.Json.{
  Json, FitsInt, IsArray, appended, IsObject, no_members, assigned, JsonLaws, member-assign_if,
}
use async_log_cloud_storage.Server.Data.{
  StorageInfo, InfoTable, info_value, append_infos, read_info,
}

-- The record is one that JSON text can carry: its numbers pass `asInt`, and its strings have no null
-- byte.
pub record IsStorable (i : StorageInfo) : Type 0 where
  pub mtime_fits : FitsInt i.mtime
  pub atime_fits : FitsInt i.atime
  pub fsize_fits : FitsInt i.fsize
  pub path_clean : c_str i.storage_path ≡ i.storage_path
  pub url_clean : c_str i.url ≡ i.url

abbrev pub AllStorable : InfoTable → Type 0
AllStorable [] = Unit {0}
AllStorable ((k, i) ∷ table) = IsStorable i × AllStorable table

module _ (j : Json) (laws : JsonLaws j) where
  open j use {Value, null, int, string, append, assign, member, size, item, as_int, as_string}

  -- The members of the object that `Storage` makes of a record.
  pub record Members (i : StorageInfo) (v : Value) : Type 0 where
    pub mtime : member v (codes "mtime_") ≡ int i.mtime
    pub atime : member v (codes "atime_") ≡ int i.atime
    pub fsize : member v (codes "fsize_") ≡ int i.fsize
    pub url : member v (codes "url_") ≡ string (c_str i.url)
    pub storage_path : member v (codes "storage_path_") ≡ string (c_str i.storage_path)

  pub info_value-Members : (i : StorageInfo) → Members i (info_value j i)
  unfolding info_value text_eq
  info_value-Members i = record {
    mtime =
        at4 (codes "mtime_")
        ∙ at3 (codes "mtime_")
        ∙ at2 (codes "mtime_")
        ∙ at1 (codes "mtime_")
        ∙ at0 (codes "mtime_");
    atime =
        at4 (codes "atime_") ∙ at3 (codes "atime_") ∙ at2 (codes "atime_") ∙ at1 (codes "atime_");
    fsize = at4 (codes "fsize_") ∙ at3 (codes "fsize_") ∙ at2 (codes "fsize_");
    url = at4 (codes "url_") ∙ at3 (codes "url_");
    storage_path = at4 (codes "storage_path_");
  }
    where
      v0 : Value
      v0 = assign null (codes "mtime_") (int i.mtime)

      v1 : Value
      v1 = assign v0 (codes "atime_") (int i.atime)

      v2 : Value
      v2 = assign v1 (codes "fsize_") (int i.fsize)

      v3 : Value
      v3 = assign v2 (codes "url_") (string (c_str i.url))

      o0 : IsObject j v0
      o0 = assigned null (codes "mtime_") (int i.mtime) no_members

      o1 : IsObject j v1
      o1 = assigned v0 (codes "atime_") (int i.atime) o0

      o2 : IsObject j v2
      o2 = assigned v1 (codes "fsize_") (int i.fsize) o1

      o3 : IsObject j v3
      o3 = assigned v2 (codes "url_") (string (c_str i.url)) o2

      at0 :
          (l : Text)
          → member v0 l ≡ (if text_eq (codes "mtime_") l then int i.mtime else member null l)
      at0 l = member-assign_if j laws null (int i.mtime) (codes "mtime_") l no_members

      at1 :
          (l : Text)
          → member v1 l ≡ (if text_eq (codes "atime_") l then int i.atime else member v0 l)
      at1 l = member-assign_if j laws v0 (int i.atime) (codes "atime_") l o0

      at2 :
          (l : Text)
          → member v2 l ≡ (if text_eq (codes "fsize_") l then int i.fsize else member v1 l)
      at2 l = member-assign_if j laws v1 (int i.fsize) (codes "fsize_") l o1

      at3 :
          (l : Text)
          → member v3 l ≡ (if text_eq (codes "url_") l then string (c_str i.url) else member v2 l)
      at3 l = member-assign_if j laws v2 (string (c_str i.url)) (codes "url_") l o2

      at4 :
          (l : Text)
          → member (assign v3 (codes "storage_path_") (string (c_str i.storage_path))) l ≡ (
              if text_eq (codes "storage_path_") l
              then string (c_str i.storage_path)
              else member v3 l)
      at4 l =
          member-assign_if j laws v3 (string (c_str i.storage_path)) (codes "storage_path_") l o3

  pub read_info-info_value : (i : StorageInfo) → IsStorable i → read_info j (info_value j i) ≡ ok i
  unfolding read_info
  read_info-info_value i s =
      rw
        (
          m.fsize,
          laws.as_int-int i.fsize s.fsize_fits,
          m.atime,
          laws.as_int-int i.atime s.atime_fits,
          m.mtime,
          laws.as_int-int i.mtime s.mtime_fits,
          m.storage_path,
          laws.as_string-string (c_str i.storage_path),
          m.url,
          laws.as_string-string (c_str i.url),
          s.path_clean,
          s.url_clean,
        )
        refl
    where
      m : Members i (info_value j i)
      m = info_value-Members i

  pub IsArray-size : (v x : Value) → IsArray j v → size (append v x) ≡ size v + 1
  IsArray-size v x a = omega (arith, laws.size-append v x a)

  pub size-append_infos :
      (root : Value) (arr : List StorageInfo)
      → IsArray j root
      → size (append_infos j root arr) ≡ size root + length arr
  unfolding append_infos
  size-append_infos root [] a = omega arith
  size-append_infos root (i ∷ arr) a = omega (
    arith,
    size-append_infos (append root (info_value j i)) arr (appended root (info_value j i) a),
    laws.size-append root (info_value j i) a,
  )

  -- What is appended later leaves an item in place.
  item-append_infos :
      (root : Value) (arr : List StorageInfo) (n : ℕ)
      → IsArray j root
      → n < size root
      → item (append_infos j root arr) n ≡ item root n
  unfolding append_infos
  item-append_infos root [] n a h = refl
  item-append_infos root (i ∷ arr) n a h =
      item-append_infos (append root (info_value j i)) arr n (appended root (info_value j i) a)
        (omega (arith, laws.size-append root (info_value j i) a))
      ∙ laws.item-append root (info_value j i) n a h

  pub item-first :
      (root : Value) (i : StorageInfo) (arr : List StorageInfo)
      → IsArray j root
      → item (append_infos j root (i ∷ arr)) (size root) ≡ info_value j i
  unfolding append_infos
  item-first root i arr a =
      item-append_infos (append root (info_value j i)) arr (size root)
        (appended root (info_value j i) a) (omega (arith, laws.size-append root (info_value j i) a))
      ∙ laws.item-append_last root (info_value j i) a

  pub append_infos-cons :
      (root : Value) (i : StorageInfo) (arr : List StorageInfo)
      → append_infos j root (i ∷ arr) ≡ append_infos j (append root (info_value j i)) arr
  unfolding append_infos
  append_infos-cons root i arr = refl
