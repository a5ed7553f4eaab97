-- ===== src/Server/JsonUtil.antt =====
-- `storage::JsonUtil` of src/server/Util.hpp, over JsonCpp.
use async_log_cloud_storage.Base.{Bool, true, false, [], Text, none, some}
use async_log_cloud_storage.Json.{Json}

module _ (j : Json) where
  -- With false, `*str` is left as it was: empty, wherever the server calls it.
  unfoldable pub serialize : j.Value → Bool × Text
  serialize v = elim (j.write v) [ none ↦ (false, []) | some s ↦ (true, s) ]

  -- The value is left null if the text cannot be parsed. The result is false in both cases.
  unfoldable pub unserialize : Text → Bool × j.Value
  unserialize s = elim (j.parse s) [ none ↦ (false, j.null) | some v ↦ (false, v) ]
