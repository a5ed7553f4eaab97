-- ===== src/Server/Data/Order.antt =====
-- The order of the table of src/server/DataManager.hpp, which its unordered map does not promise.
use mathlib.Core.Path.{subst}
use mathlib.Core.Logic.{∥∥₁_elim}
use mathlib.Core.List.{Perm, Permᴰ}
use async_log_cloud_storage.Base.{
  ◌≡◌, refl, ap, ◌∙◌, true, [], ◌∷◌, Text, text_eq, text_eq_iff, if◌then◌else◌, Option, some, ok,
  arith,
}
use async_log_cloud_storage.Json.{Json, JsonLaws}
use async_log_cloud_storage.Server.Files.{Files, Disk}
use async_log_cloud_storage.Server.Config.{Config}
use async_log_cloud_storage.Server.Data.{
  StorageInfo, InfoTable, DataManager, find_info, get_one_by_url, storage, new_data_manager,
}
use async_log_cloud_storage.Server.Data.Table.{IsFresh, IsKeyed, text_eq_sym}
use async_log_cloud_storage.Server.Data.Items.{AllStorable}
use async_log_cloud_storage.Server.Data.Persist.{IsStored, new_data_manager-storage}

IsFresh-Permᴰ : (key : Text) {t t' : InfoTable} → Permᴰ t t' → IsFresh key t → IsFresh key t'
IsFresh-Permᴰ key Permᴰ.nil f = f
IsFresh-Permᴰ key (Permᴰ.cons {a} {b} {l₁} {l₂} e p) f =
    subst (λ (x : Text × StorageInfo). IsFresh key (x ∷ l₂)) e (f.0, IsFresh-Permᴰ key p f.1)
IsFresh-Permᴰ key (Permᴰ.swap {a} {b} {a'} {b'} {l} e h) f =
    subst (λ (x : Text × StorageInfo). IsFresh key (x ∷ b' ∷ l)) h
      (subst (λ (y : Text × StorageInfo). IsFresh key (b ∷ y ∷ l)) e (f.1.0, (f.0, f.1.1)))
IsFresh-Permᴰ key (Permᴰ.trans p q) f = IsFresh-Permᴰ key q (IsFresh-Permᴰ key p f)

-- A table in another order is keyed too, and finds the same.
abbrev Agrees : InfoTable → InfoTable → Type 0
Agrees t t' = IsKeyed t' × ((url : Text) → find_info url t' ≡ find_info url t)

Agrees-cons :
    (a : Text × StorageInfo) (t t' : InfoTable)
    → IsKeyed (a ∷ t)
    → IsFresh a.0 t'
    → Agrees t t'
    → Agrees (a ∷ t) (a ∷ t')
unfolding find_info
Agrees-cons a t t' v f (keyed, same) = (
  (v.0, f, keyed),
  λ url. ap (λ (o : Option StorageInfo). if text_eq a.0 url then some a.1 else o) (same url),
)

Agrees-swap :
    (a b : Text × StorageInfo) (t : InfoTable)
    → IsKeyed (a ∷ b ∷ t)
    → Agrees (a ∷ b ∷ t) (b ∷ a ∷ t)
unfolding find_info
Agrees-swap a b t (own, apart, (own', fresh, keyed)) = (
  (own', (text_eq_sym a.0 b.0 ∙ apart.0, fresh), (own, apart.1, keyed)),
  λ url. ground (arith, apart.0, text_eq_iff a.0 url, text_eq_iff b.0 url, text_eq_iff b.0 a.0),
)

Agrees-Permᴰ : {t t' : InfoTable} → Permᴰ t t' → IsKeyed t → Agrees t t'
Agrees-Permᴰ Permᴰ.nil v = (v, λ url. refl)
Agrees-Permᴰ (Permᴰ.cons {a} {b} {l₁} {l₂} e p) v =
    subst (λ (x : Text × StorageInfo). Agrees (a ∷ l₁) (x ∷ l₂)) e
      (Agrees-cons a l₁ l₂ v (IsFresh-Permᴰ a.0 p v.1) (Agrees-Permᴰ p v.2))
Agrees-Permᴰ (Permᴰ.swap {a} {b} {a'} {b'} {l} e h) v =
    subst (λ (x : Text × StorageInfo). Agrees (a ∷ b ∷ l) (x ∷ b' ∷ l)) h
      (subst (λ (y : Text × StorageInfo). Agrees (a ∷ b ∷ l) (b ∷ y ∷ l)) e (Agrees-swap a b l v))
Agrees-Permᴰ (Permᴰ.trans p q) v =
    let (keyed, same) = Agrees-Permᴰ p v in
    let (keyed', same') = Agrees-Permᴰ q keyed in (keyed', λ url. same' url ∙ same url)

IsFresh-prop : (key : Text) (t : InfoTable) → IsProp (IsFresh key t)
IsFresh-prop key [] = hlevel
IsFresh-prop key ((k, i) ∷ t) = hlevel (IsFresh-prop key t)

IsKeyed-prop : (t : InfoTable) → IsProp (IsKeyed t)
IsKeyed-prop [] = hlevel
IsKeyed-prop ((k, i) ∷ t) = hlevel (IsFresh-prop k t, IsKeyed-prop t)

IsKeyed-Perm : (t t' : InfoTable) → Perm t t' → IsKeyed t → IsKeyed t'
IsKeyed-Perm t t' p v = ∥∥₁_elim p (IsKeyed-prop t') (λ d. (Agrees-Permᴰ d v).0)

find_info-Perm :
    (t t' : InfoTable) (url : Text) → Perm t t' → IsKeyed t → find_info url t' ≡ find_info url t
find_info-Perm t t' url p v =
    ∥∥₁_elim p (Option-StorageInfo-set _ _) (λ d. (Agrees-Permᴰ d v).1 url)
  where
    Option-StorageInfo-set : IsSet (Option StorageInfo)
    Option-StorageInfo-set = hlevel

-- The map does not promise an order: if `Storage` writes the entries of a keyed table in any order `m'`,
-- whole, of records that JSON text can carry, then the next start loads a manager that finds by every
-- URL what the table had.
pub reloaded :
    (j : Json) (laws : JsonLaws j) (d : Disk) (c : Config) (m m' : DataManager) (fs : Files)
    → Perm m.table m'.table
    → IsKeyed m.table
    → m'.storage_file ≡ c.storage_info
    → AllStorable m'.table
    → IsStored j laws d m' fs
    → (loaded : DataManager) × (new_data_manager j d c (storage j d m' fs).1
        ≡ ok (loaded, (storage j d m' fs).1))
      × ((url : Text) → get_one_by_url url loaded ≡ get_one_by_url url m)
unfolding get_one_by_url
reloaded j laws d c m m' fs p v at s w = (
  record { storage_file = c.storage_info; table = m'.table; need_persist = true },
  new_data_manager-storage j laws d c m' fs at (IsKeyed-Perm m.table m'.table p v) s w,
  λ url. find_info-Perm m.table m'.table url p v,
)
