-- ===== src/Server/Data/Load.antt =====
-- The loop of `InitLoad` of src/server/DataManager.hpp over the array that `Storage` built.
use async_log_cloud_storage.Base.{
  ℕ, zero, suc, ◌+◌, ◌≡◌, refl, sym, ap, ◌∙◌, false, List, [], ◌∷◌, ◌++◌, append-nil, append_assoc,
  length, Text, ok, fail, json_error,
}
use async_log_cloud_storage.Json.{Json, FitsInt, IsArray, appended, JsonLaws}
use async_log_cloud_storage.Server.Files.{Files, Disk}
use async_log_cloud_storage.Server.Data.{
  StorageInfo, InfoTable, DataManager, assign_info, info_value, append_infos, insert, read_info,
  load_items,
}
use async_log_cloud_storage.Server.Data.Table.{IsKeyed, assign_info-fresh, Apart, Apart-snoc, infos}
use async_log_cloud_storage.Server.Data.Items.{
  IsStorable, AllStorable, IsArray-size, item-first, append_infos-cons, info_value-Members,
  read_info-info_value,
}

module _ (j : Json) (laws : JsonLaws j) where
  open j use {Value, null, append, size, item}

  module _ (d : Disk) where
    -- A manager while it loads.
    abbrev pub loading : Text → InfoTable → DataManager
    loading storage_file table = record {
      storage_file = storage_file;
      table = table;
      need_persist = false;
    }

    -- One round of the loop, over any value.
    load_items-read :
        (left n : ℕ) (root : Value) (i : StorageInfo) (sf : Text) (table : InfoTable) (fs : Files)
        → read_info j (item root n) ≡ ok i
        → load_items j d (suc left) n root (loading sf table) fs
          ≡ load_items j d left (n + 1) root (loading sf (assign_info i.url i table)) fs
    unfolding load_items insert
    load_items-read left n root i sf table fs e = rw (e, load_items) refl

    load_items-zero :
        (n : ℕ) (root : Value) (m : DataManager) (fs : Files)
        → load_items j d zero n root m fs ≡ ok (m, fs)
    unfolding load_items
    load_items-zero n root m fs = refl

    load_items-fail :
        (left n : ℕ) (root : Value) (m : DataManager) (fs : Files)
        → read_info j (item root n) ≡ fail json_error
        → load_items j d (suc left) n root m fs ≡ fail json_error
    unfolding load_items
    load_items-fail left n root m fs e = rw (e, load_items) refl

    -- One round over what `Storage` built: the next record goes into the table.
    load_items-step :
        (left : ℕ) (root : Value) (i : StorageInfo) (arr : List StorageInfo) (sf : Text)
        (table : InfoTable) (fs : Files)
        → IsArray j root
        → IsStorable i
        → load_items j d
            (suc left)
            (size root)
            (append_infos j root (i ∷ arr))
            (loading sf table)
            fs
          ≡ load_items j d left
              (size (append root (info_value j i)))
              (append_infos j (append root (info_value j i)) arr)
              (loading sf (assign_info i.url i table))
              fs
    load_items-step left root i arr sf table fs a s =
        load_items-read left (size root) (append_infos j root (i ∷ arr)) i sf table fs
          (ap (read_info j) (item-first j laws root i arr a) ∙ read_info-info_value j laws i s)
        ∙ rw (IsArray-size j laws root (info_value j i) a)
            (rw (append_infos-cons j laws root i arr) refl)

    -- The loop over a stored table puts it behind what the table had before.
    pub load_items-append_infos :
        (table pre : InfoTable) (root : Value) (sf : Text) (fs : Files)
        → IsArray j root
        → AllStorable table
        → IsKeyed table
        → Apart pre table
        → load_items j d
            (length table)
            (size root)
            (append_infos j root (infos table))
            (loading sf pre)
            fs
          ≡ ok (loading sf (pre ++ table), fs)
    load_items-append_infos [] pre root sf fs a s v apart =
        load_items-zero (size root) (append_infos j root []) (loading sf pre) fs
        ∙ rw (append-nil pre) refl
    load_items-append_infos ((k, i) ∷ table) pre root sf fs a s v apart =
        load_items-step (length table) root i (infos table) sf pre fs a s.0
        ∙ ap
            (λ (t : InfoTable).
              load_items j d (length table) (size (append root (info_value j i)))
                (append_infos j (append root (info_value j i)) (infos table)) (loading sf t) fs)
            grown
        ∙ load_items-append_infos table (pre ++ (k, i) ∷ []) (append root (info_value j i)) sf fs
            (appended root (info_value j i) a) s.1 v.2 (Apart-snoc k i pre table apart.1 v.1)
        ∙ ap (λ (t : InfoTable). ok (loading sf t, fs)) (append_assoc pre ((k, i) ∷ []) table)
      where
        grown : assign_info i.url i pre ≡ pre ++ (k, i) ∷ []
        grown = ap (λ (t : Text). assign_info t i pre) (sym v.0) ∙ assign_info-fresh k i pre apart.0

    read_info-too_large :
        (i : StorageInfo) → ¬ FitsInt i.fsize → read_info j (info_value j i) ≡ fail json_error
    unfolding read_info
    read_info-too_large i h =
        rw ((info_value-Members j laws i).fsize, laws.as_int-int_large i.fsize h) refl

    pub load_items-too_large :
        (before after table : InfoTable) (k : Text) (i : StorageInfo) (root : Value) (sf : Text)
        (fs : Files)
        → IsArray j root
        → AllStorable before
        → ¬ FitsInt i.fsize
        → load_items j d
            (length (before ++ (k, i) ∷ after))
            (size root)
            (append_infos j root (infos (before ++ (k, i) ∷ after)))
            (loading sf table)
            fs
          ≡ fail json_error
    load_items-too_large [] after table k i root sf fs a s h =
        load_items-fail (length after) (size root) (append_infos j root (i ∷ infos after))
          (loading sf table) fs
          (ap (read_info j) (item-first j laws root i (infos after) a) ∙ read_info-too_large i h)
    load_items-too_large ((l, n) ∷ before) after table k i root sf fs a s h =
        load_items-step (length (before ++ (k, i) ∷ after)) root n
          (infos (before ++ (k, i) ∷ after)) sf table fs a s.0
        ∙ load_items-too_large before after (assign_info n.url n table) k i
            (append root (info_value j n)) sf fs (appended root (info_value j n) a) s.1 h
