-- ===== src/Log/Logger/Sinks.antt =====
-- What the flushers of AsyncLogger.hpp get.
use mathlib.Core.Path.{subst}
use async_log_cloud_storage.Base.{
  ℕ, ◌≡◌, List, [], ◌∷◌, ◌++◌, append_assoc, append-nil, length, Text, ok, >>=-eq-ok, arith,
}
use async_log_cloud_storage.Log.Config.{LogConfig}
use async_log_cloud_storage.Log.Buffer.{Buffer, begin_readable}
use async_log_cloud_storage.Log.Buffer.Contents.{IsValid, contents, begin_readable-contents}
use async_log_cloud_storage.Log.Flush.{Device, Tm, roll_file_flush}
use async_log_cloud_storage.Log.Logger.{
  LogFlush, stdout_flush, file_sink, roll_sink, Outputs, flush_log, flush_each, real_flush,
}

abbrev echo : Text → LogFlush → Text
echo bytes stdout_flush = bytes
echo bytes (file_sink f) = []
echo bytes (roll_sink r) = []

-- How often the text goes to standard output.
unfoldable pub echoes : Text → List LogFlush → Text
echoes bytes [] = []
echoes bytes (f ∷ fs) = echo bytes f ++ echoes bytes fs

module _ (c : LogConfig) (d : Device) where
  flush_log-stdout :
      (t : Tm) (bytes : Text) (f f' : LogFlush) (o o' : Outputs)
      → flush_log c d t bytes f o ≡ ok (f', o')
      → o'.stdout ≡ o.stdout ++ echo bytes f
  unfolding flush_log
  flush_log-stdout t bytes stdout_flush f' o o' h = ground arith
  flush_log-stdout t bytes (file_sink f) f' o o' h = ground (arith, append-nil o.stdout)
  flush_log-stdout t bytes (roll_sink r) f' o o' h =
      let (done, ran, rest) = >>=-eq-ok (roll_file_flush c d t bytes r o.files) _ h in
      ground (arith, append-nil o.stdout)

  flush_each-stdout :
      (clock : ℕ → Tm) (bytes : Text) (fs fs' : List LogFlush) (o o' : Outputs)
      → flush_each c d clock bytes fs o ≡ ok (fs', o')
      → (o'.stdout ≡ o.stdout ++ echoes bytes fs) × (length fs' ≡ length fs)
  unfolding flush_each echoes
  flush_each-stdout clock bytes [] fs' o o' h = ground (arith, append-nil o.stdout)
  flush_each-stdout clock bytes (f ∷ fs) fs' o o' h =
      let ((f1, o1), ran, rest) = >>=-eq-ok (flush_log c d (clock (length fs)) bytes f o) _ h in
      let ((fs2, o2), ran2, rest2) = >>=-eq-ok (flush_each c d clock bytes fs o1) _ rest in
      let (later, same) = flush_each-stdout clock bytes fs fs2 o1 o2 ran2 in
      ground (
        arith,
        flush_log-stdout (clock (length fs)) bytes f f1 o o1 ran,
        append_assoc o.stdout (echo bytes f) (echoes bytes fs),
      )

  -- A `RealFlush` of a valid buffer that returns has put the buffer's readable bytes to standard output
  -- once for each flusher that writes there, and nothing else, and has kept every flusher.
  pub real_flush-stdout :
      (clock : ℕ → Tm) (b : Buffer) (fs fs' : List LogFlush) (o o' : Outputs)
      → IsValid b
      → real_flush c d clock b fs o ≡ ok (fs', o')
      → (o'.stdout ≡ o.stdout ++ echoes (contents b) fs) × (length fs' ≡ length fs)
  unfolding real_flush echoes
  real_flush-stdout clock b [] fs' o o' v h = ground (arith, append-nil o.stdout)
  real_flush-stdout clock b (f ∷ fs) fs' o o' v h =
      let (bytes, ran, rest) = >>=-eq-ok (begin_readable b) _ h in
      let same : bytes ≡ contents b = ground (arith, begin_readable-contents b v) in
      subst
        (λ (t : Text). (o'.stdout ≡ o.stdout ++ echoes t (f ∷ fs)) × (length fs' ≡ length (f ∷ fs)))
        same (flush_each-stdout clock bytes (f ∷ fs) fs' o o' rest)
