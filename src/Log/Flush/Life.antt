-- ===== src/Log/Flush/Life.antt =====
-- `RollFileFlush` of log_system/log_src/LogFlush.hpp from its constructor to its destructor.
use mathlib.Core.Path.{subst}
use async_log_cloud_storage.Base.{
  ℕ, ◌+◌, ◌^◌, ◌≤◌, ◌<◌, ◌≡◌, refl, sym, ◌∙◌, List, [], ◌∷◌, ◌++◌, append_assoc, append-nil, map,
  flatten, length, Text, some, ok, arith,
}
use async_log_cloud_storage.Log.Config.{LogConfig}
use async_log_cloud_storage.Log.Flush.{
  LogFiles, Device, Stream, Tm, RollFileFlush, new_roll_file_flush, roll_file_flushes,
  end_roll_file_flush, close_stream,
}
use async_log_cloud_storage.Log.Flush.Streams.{TakesAll, close_stream-Holding}
use async_log_cloud_storage.Log.Flush.Rolled.{
  contents, AllAtMost, AllAtMost-snoc, contents-snoc, Unused, Rolling,
}
use async_log_cloud_storage.Log.Flush.Rolling.{Flushed, first_flush, later_flush}

-- The bytes of calls, in order.
abbrev pub given : List (Tm × Text) → Text
given calls = flatten (map (λ e. e.1) calls)

abbrev pub AllShort : ℕ → List (Tm × Text) → Type 0
AllShort n [] = Unit {0}
AllShort n ((t, bytes) ∷ calls) = (length bytes ≤ n) × AllShort n calls

module _ (c : LogConfig) (d : Device) (all : TakesAll d) where
  later_flushes :
      (old : LogFiles) (limit longest : ℕ) (written : Text) (calls : List (Tm × Text))
      (r : RollFileFlush) (files : LogFiles)
      → Rolling old limit written r files
      → AllShort longest calls
      → r.cnt + length calls < 2 ^ 64
      → r.max_size + longest ≤ limit
      → limit < 2 ^ 64
      → (r' : RollFileFlush) × (files' : LogFiles) × (roll_file_flushes c d calls r files
          ≡ ok (r', files'))
        × Rolling old limit (written ++ given calls) r' files'
  unfolding roll_file_flushes
  later_flushes old limit longest written [] r files v short names bounded fits =
      (r, files, refl, subst (λ w. Rolling old limit w r files) (sym (append-nil written)) v)
  later_flushes old limit longest written ((t, bytes) ∷ calls) r files v short names bounded fits =
      let f : Flushed c d all old limit (written ++ bytes) t bytes r files =
        later_flush c d all old limit longest written t bytes r files v (omega arith) short.0
          bounded fits in
      let (r', files', ran, v') =
        later_flushes old limit longest (written ++ bytes) calls f.after f.files_after f.rolling
          short.1 (omega (arith, f.counted)) (omega (arith, f.same_max)) fits in
      (
        r',
        files',
        rw f.ran ran,
        subst (λ w. Rolling old limit w r' files') (append_assoc written bytes (given calls)) v',
      )

  ended :
      (r : RollFileFlush) (files : LogFiles) (s : Stream)
      → r.fs ≡ some s
      → (end_roll_file_flush r files).1 ≡ close_stream s files
  unfolding end_roll_file_flush
  ended r files s e = rw (e, end_roll_file_flush) refl

  -- What the destructor leaves.
  end-Rolling :
      (old : LogFiles) (limit : ℕ) (written : Text) (r : RollFileFlush) (files : LogFiles)
      → Rolling old limit written r files
      → (made : LogFiles) × ((end_roll_file_flush r files).1 ≡ old ++ made)
        × (contents made ≡ written)
        × AllAtMost limit made
  unfolding end_roll_file_flush
  end-Rolling old limit written r files v = (
    v.closed ++ (v.stream.name, v.text) ∷ [],
    ended r files v.stream v.opened
        ∙ close_stream-Holding (old ++ v.closed) v.text v.stream files v.holding
        ∙ append_assoc old v.closed ((v.stream.name, v.text) ∷ []),
    contents-snoc v.stream.name v.text v.closed ∙ v.all_written,
    AllAtMost-snoc limit v.stream.name v.text v.closed v.all_small v.small,
  )

  -- A flusher that is constructed, called and destroyed, over a system that opens every file and takes
  -- every byte, where no file has a name that it can give: it leaves the files that were there as they
  -- were, and behind them new ones that hold, in order, exactly the bytes it was called with. Each
  -- new file has at most the maximal size and the longest call.
  pub rolled_complete :
      (basename : Text) (max_size longest : ℕ) (calls : List (Tm × Text)) (old : LogFiles)
      → AllShort longest calls
      → max_size + longest < 2 ^ 64
      → 1 + length calls < 2 ^ 64
      → Unused basename 1 old
      → (r : RollFileFlush) × (files made : LogFiles) × (roll_file_flushes c d calls
            (new_roll_file_flush basename max_size)
            old
          ≡ ok (r, files))
        × ((end_roll_file_flush r files).1 ≡ old ++ made)
        × (contents made ≡ given calls)
        × AllAtMost (max_size + longest) made
  unfolding roll_file_flushes end_roll_file_flush new_roll_file_flush
  rolled_complete basename max_size longest [] old short fits names unused =
      (new_roll_file_flush basename max_size, old, [], refl, sym (append-nil old), refl, tt)
  rolled_complete basename max_size longest ((t, bytes) ∷ calls) old short fits names unused =
      let r = new_roll_file_flush basename max_size in
      let f : Flushed c d all old (max_size + longest) bytes t bytes r old =
        first_flush c d all old (max_size + longest) t bytes r refl unused (omega arith)
          (omega (arith, short.0)) fits in
      let (r', files', ran, v) =
        later_flushes old (max_size + longest) longest bytes calls f.after f.files_after f.rolling
          short.1 (omega (arith, f.counted)) (omega (arith, f.same_max)) fits in
      let (made, left, all_there, small) =
        end-Rolling old (max_size + longest) (bytes ++ given calls) r' files' v in
      (r', files', made, rw f.ran ran, left, all_there, small)
