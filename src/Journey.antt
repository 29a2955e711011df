-- ===== src/Journey.antt =====
-- A journal from its first frame on: a writer and then a reader, each over a local provider
-- (include/yijinjing/journal/JournalWriter.cpp, JournalReader.h, LocalPageProvider.cpp).
use yijinjing_lite.Prelude.{
  ℕ, suc, ◌+◌, ◌<◌, ◌^◌, ◌≡◌, refl, ap, subst, ◌∙◌, Bool, true, List, [], ◌∷◌, length, none, All,
  arith,
}
use yijinjing_lite.FileName.{gen_page_full_path}
use yijinjing_lite.Page.Log.{Message}
use yijinjing_lite.Directory.{get_page_nums}
use yijinjing_lite.Provider.{local_provider}
use yijinjing_lite.Journal.{Journal, Session}
use yijinjing_lite.Writer.Frames.{at_page}
use yijinjing_lite.Writer.Log.{messages}
use yijinjing_lite.Writer.Sequence.{Entry, IsSmall, stamped, write_frames, write_frames-Represents}
use yijinjing_lite.Writer.Start.{new_place, begun_world, empty_log, init-Represents}
use yijinjing_lite.Writer.{init, strip_slash}
use yijinjing_lite.Reader.Object.{Reading}
use yijinjing_lite.Reader.One.{Fixed, reading_one}
use yijinjing_lite.Reader.Follows.{reading}
use yijinjing_lite.Reader.Drain.{take_frames, take_frames-messages}
use yijinjing_lite.World.Effect.{Run, ok, ◌>>◌, bind_returns}
use yijinjing_lite.World.{Os, World}
use yijinjing_lite.World.New.{Healthy}

length-stamped :
    (ts : List ℕ) (es : List Entry) → length ts ≡ length es → length (stamped ts es) ≡ length es
length-stamped [] [] h = refl
length-stamped [] (e ∷ es) h = absurd (omega (arith, h))
length-stamped (t ∷ ts) [] h = absurd (omega (arith, h))
length-stamped (t ∷ ts) (e ∷ es) h = ap suc (length-stamped ts es (omega (arith, h)))

retold :
    (P : ℕ → List Message → Type 0) (ms qs : List Message) (n : ℕ)
    → ms ≡ qs
    → length qs ≡ n
    → P (length ms) ms
    → P n qs
retold P ms qs n e h p =
    subst (λ (k : ℕ). P k qs) h (subst (λ (xs : List Message). P (length xs) xs) e p)

module _ (os : Os) (auto_hash : Bool) (fuel : ℕ) (dir jname : List ℕ) where
  -- A new writer, and its calls of `write_frame`.
  unfoldable pub write_session : List Entry → Run Session (List ℕ)
  write_session es =
      init os (local_provider true) auto_hash fuel dir jname >> write_frames os auto_hash fuel es

module _ (os : Os) (healthy : Healthy os) (auto_hash : Bool) (rounds fuel : ℕ) (dir jname : List ℕ)
    (short_name : length jname < 30) (clock_fits : (n : ℕ) → os.clock n < 2 ^ 64) where
  -- A new writer over the local provider, for a journal that has no files and is listed
  -- without any, writes any entries that are each no larger than the headroom, fewer than 2^15
  -- in all. All its calls return. Then a new reader of the journal, over its own local
  -- provider, that asks for one frame more than there are entries gets exactly the entries,
  -- with the times that the writes gave and in their order, and then none. The system calls
  -- succeed, the clock fits 64 bits and the name has under 30 bytes.
  pub take_frames-write_session :
      (w : World) (j : Journal) (es : List Entry) (o : Fixed)
      (unused : (n : ℕ)
        → n < 2 ^ 15
        → w.files (gen_page_full_path (strip_slash dir) jname n) ≡ none)
      → get_page_nums os (strip_slash dir) jname w ≡ []
      → All IsSmall es
      → length es + 2 < 2 ^ 15
      → (ts : List ℕ) × (s : Session) × (t : Reading) × (write_session os auto_hash
            (suc (suc rounds))
            dir
            jname
            es
            (record { world = w; journal = j })
          ≡ (ok ts, s))
        × (length ts ≡ length es)
        × (take_frames os fuel
              (suc (length es))
              (reading_one s.world (reading (new_place os healthy w dir jname unused) none) none o)
            ≡ (ok (stamped ts es), t))
  unfolding write_session
  take_frames-write_session w j es o unused listed small more =
      let l = new_place os healthy w dir jname unused in
      let v = begun_world os healthy w dir jname unused in
      let g = empty_log os healthy w dir jname unused in
      let (starts, rep) =
        init-Represents os healthy w dir jname unused short_name (clock_fits w.readings)
          (suc rounds) listed auto_hash j in
      let (ts, g', u, writes, filled) =
        write_frames-Represents os healthy auto_hash rounds l short_name clock_fits es v g rep small
          (omega arith) in
      let (t, takes, same) =
        take_frames-messages os healthy fuel u l g' filled.represents (omega (arith, filled.pages))
          o filled.first_page in
      (
        ts,
        at_page u l g'.page,
        t,
        bind_returns (init os (local_provider true) auto_hash (suc (suc rounds)) dir jname)
              (λ _. write_frames os auto_hash (suc (suc rounds)) es) _ (at_page v l g.page) tt
              starts
            ∙ writes,
        filled.times,
        retold
            (λ n ms.
              take_frames os fuel (suc n) (reading_one u (reading l none) none o) ≡ (ok ms, t))
            (messages g') (stamped ts es) (length es) filled.content
            (length-stamped ts es filled.times) takes,
      )
