-- ===== src/Server/Data/Table.antt =====
-- The table of src/server/DataManager.hpp as a map by URL.
use async_log_cloud_storage.Base.{
  ◌≡◌, refl, ap, ◌∙◌, inl, inr, Bool-cases, false, List, [], ◌∷◌, map, ◌++◌, if◌then◌else◌, Text,
  text_eq, text_eq_iff, some, arith,
}
use async_log_cloud_storage.Json.{Json}
use async_log_cloud_storage.Server.Files.{Files, Disk}
use async_log_cloud_storage.Server.Data.{
  StorageInfo, InfoTable, DataManager, assign_info, find_info, get_one_by_url, insert, update,
}

find_info-assign_info :
    (key k : Text) (info : StorageInfo) (table : InfoTable)
    → find_info k (assign_info key info table)
      ≡ (if text_eq key k then some info else find_info k table)
unfolding find_info assign_info
find_info-assign_info key k info [] = refl
find_info-assign_info key k info ((l, i) ∷ table) = ground (
  arith,
  text_eq_iff key k,
  text_eq_iff l key,
  text_eq_iff l k,
  find_info-assign_info key k info table,
)

-- After `Insert`, and after `Update`, the entry of the URL is the new one, and every other URL has
-- what it had; the disk and the need to persist make no difference.
pub get_one_by_url-insert :
    (j : Json) (d : Disk) (info : StorageInfo) (m : DataManager) (fs : Files) (k : Text)
    → (get_one_by_url k (insert j d info m fs).1
        ≡ (if text_eq info.url k then some info else get_one_by_url k m))
      × (get_one_by_url k (update j d info m fs).1
          ≡ (if text_eq info.url k then some info else get_one_by_url k m))
unfolding get_one_by_url insert update
get_one_by_url-insert j d info m fs k =
    ground (arith, find_info-assign_info info.url k info m.table)

-- No entry of the table has this key.
abbrev pub IsFresh : Text → InfoTable → Type 0
IsFresh key [] = Unit {0}
IsFresh key ((k, i) ∷ table) = (text_eq k key ≡ false) × IsFresh key table

-- The keys are the URLs of their entries, each once.
abbrev pub IsKeyed : InfoTable → Type 0
IsKeyed [] = Unit {0}
IsKeyed ((k, i) ∷ table) = (k ≡ i.url) × IsFresh k table × IsKeyed table

assign_info-IsFresh :
    (key k : Text) (info : StorageInfo) (table : InfoTable)
    → text_eq key k ≡ false
    → IsFresh k table
    → IsFresh k (assign_info key info table)
unfolding assign_info
assign_info-IsFresh key k info [] other f = (other, tt)
assign_info-IsFresh key k info ((l, i) ∷ table) other f =
    ground (arith, assign_info-IsFresh key k info table other f.1)

pub text_eq_sym : (a b : Text) → text_eq a b ≡ text_eq b a
text_eq_sym a b = ground (arith, text_eq_iff a b, text_eq_iff b a)

assign_info-IsKeyed :
    (info : StorageInfo) (table : InfoTable)
    → IsKeyed table
    → IsKeyed (assign_info info.url info table)
unfolding assign_info
assign_info-IsKeyed info [] v = (refl, tt, tt)
assign_info-IsKeyed info ((k, i) ∷ table) v = elim (Bool-cases (text_eq k info.url)) [
  | inl e ↦ rw e ((text_eq_iff k info.url).0 e, v.1, v.2)
  | inr e ↦ rw e (
    v.0,
    assign_info-IsFresh info.url k info table (text_eq_sym info.url k ∙ e) v.1,
    assign_info-IsKeyed info table v.2,
  )
]

-- `Insert` and `Update` keep a table in which every record stands under its own URL, and each URL
-- once.
pub insert-IsKeyed :
    (j : Json) (d : Disk) (info : StorageInfo) (m : DataManager) (fs : Files)
    → IsKeyed m.table
    → IsKeyed (insert j d info m fs).1.table × IsKeyed (update j d info m fs).1.table
unfolding insert update
insert-IsKeyed j d info m fs v = ground (arith, assign_info-IsKeyed info m.table v)

-- A new key goes to the end.
pub assign_info-fresh :
    (key : Text) (info : StorageInfo) (table : InfoTable)
    → IsFresh key table
    → assign_info key info table ≡ table ++ (key, info) ∷ []
unfolding assign_info
assign_info-fresh key info [] f = refl
assign_info-fresh key info ((k, i) ∷ table) f =
    rw f.0 (ap (◌∷◌ (k, i)) (assign_info-fresh key info table f.1))

-- No key of the second table is in the first.
abbrev pub Apart : InfoTable → InfoTable → Type 0
Apart pre [] = Unit {0}
Apart pre ((k, i) ∷ table) = IsFresh k pre × Apart pre table

IsFresh-snoc :
    (l k : Text) (i : StorageInfo) (pre : InfoTable)
    → IsFresh l pre
    → text_eq k l ≡ false
    → IsFresh l (pre ++ (k, i) ∷ [])
IsFresh-snoc l k i [] f e = (e, tt)
IsFresh-snoc l k i ((m, n) ∷ pre) f e = (f.0, IsFresh-snoc l k i pre f.1 e)

pub Apart-snoc :
    (k : Text) (i : StorageInfo) (pre table : InfoTable)
    → Apart pre table
    → IsFresh k table
    → Apart (pre ++ (k, i) ∷ []) table
Apart-snoc k i pre [] a f = tt
Apart-snoc k i pre ((l, n) ∷ table) a f =
    (IsFresh-snoc l k i pre a.0 (text_eq_sym k l ∙ f.0), Apart-snoc k i pre table a.1 f.1)

pub Apart-nil : (table : InfoTable) → Apart [] table
Apart-nil [] = tt
Apart-nil ((k, i) ∷ table) = (tt, Apart-nil table)

abbrev pub infos : InfoTable → List StorageInfo
infos table = map (λ e. e.1) table
