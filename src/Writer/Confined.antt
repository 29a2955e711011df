-- ===== src/Writer/Confined.antt =====
-- Journals on one disk: what a call of one writer leaves of the journals of the others.
use mathlib.Core.List.{Memᴰ}
use yijinjing_lite.Prelude.{
  ℕ, ◌<◌, ◌≤◌, ◌^◌, ◌≡◌, ◌≢◌, refl, ◌∙◌, false, List, [], ◌∷◌, ◌++◌, map, All, bytes_eq, arith,
}
use yijinjing_lite.Writer.Frames.{Place}
use yijinjing_lite.Writer.Log.{Log, Sealed, IsSealed, Represents, path_of}
use yijinjing_lite.World.{World}

-- The files of the log's pages.
abbrev pub inodes_of : Log → List ℕ
inodes_of g = g.page.buffer ∷ map (λ s. s.inode) g.closed

-- The pages of the log are among those from before once the open one is closed.
pub mem_closed :
    (i : ℕ) (ss : List Sealed) (s : Sealed)
    → Memᴰ i (map (λ s. s.inode) (ss ++ s ∷ []))
    → Memᴰ i (s.inode ∷ map (λ s. s.inode) ss)
mem_closed i [] s h = h
mem_closed i (t ∷ ss) s (Memᴰ.head e) = Memᴰ.tail (Memᴰ.head e)
mem_closed i (t ∷ ss) s (Memᴰ.tail h) = elim (mem_closed i ss s h) [
  | Memᴰ.head e ↦ Memᴰ.head e
  | Memᴰ.tail m ↦ Memᴰ.tail (Memᴰ.tail m)
]

-- What a call leaves of the rest of the disk: only the open page of the journal and its own file
-- names may change, and a new page is a new file.
pub record Confined (w : World) (l : Place) (g g' : Log) (v : World) : Type 0 where
  pub contents : (j : ℕ) → j < w.inodes → j ≢ g.page.buffer → v.contents j ≡ w.contents j
  pub files :
      (p : List ℕ)
      → ((n : ℕ) → n < 2 ^ 15 → bytes_eq (path_of l n) p ≡ false)
      → v.files p ≡ w.files p
  pub inodes : w.inodes ≤ v.inodes
  pub readings : w.readings < v.readings
  pub pages_old : (i : ℕ) → i < w.inodes → Memᴰ i (inodes_of g') → Memᴰ i (inodes_of g)

-- Two journals have no file name and no page in common.
pub record Apart (l k : Place) (g h : Log) : Type 0 where
  pub paths : (m n : ℕ) → m < 2 ^ 15 → n < 2 ^ 15 → bytes_eq (path_of l m) (path_of k n) ≡ false
  pub pages : (i : ℕ) → Memᴰ i (inodes_of g) → Memᴰ i (inodes_of h) → ⊥

module _ (w : World) (l : Place) (g : Log) (rep : Represents w l g) where
  closed_lt :
      (i : ℕ) (ss : List Sealed)
      → All (IsSealed w l g.page) ss
      → Memᴰ i (map (λ s. s.inode) ss)
      → i < w.inodes
  closed_lt i [] all m = elim m [ ]
  closed_lt i (s ∷ ss) all (Memᴰ.head e) = omega (arith, all.0.inode_older, rep.owned, e)
  closed_lt i (s ∷ ss) all (Memᴰ.tail m) = closed_lt i ss all.1 m

  pub inodes_of-lt : (i : ℕ) → Memᴰ i (inodes_of g) → i < w.inodes
  inodes_of-lt i (Memᴰ.head e) = omega (arith, rep.owned, e)
  inodes_of-lt i (Memᴰ.tail m) = closed_lt i g.closed rep.closed m

module _ (w v : World) (l k : Place) (g g' h : Log) (confined : Confined w l g g' v)
    (rep : Represents w k h) (more : h.page.page_num < 2 ^ 15) (apart : Apart l k g h) where
  same_file : (n : ℕ) → n < 2 ^ 15 → v.files (path_of k n) ≡ w.files (path_of k n)
  same_file n fits = confined.files (path_of k n) (λ m m_fits. apart.paths m n m_fits fits)

  same_contents : (i : ℕ) → Memᴰ i (inodes_of h) → v.contents i ≡ w.contents i
  same_contents i m =
      confined.contents i (inodes_of-lt w k h rep i m) (λ e. apart.pages i (Memᴰ.head e) m)

  closed_keep :
      (ss : List Sealed)
      → ((i : ℕ) → Memᴰ i (map (λ s. s.inode) ss) → Memᴰ i (inodes_of h))
      → All (IsSealed w k h.page) ss
      → All (IsSealed v k h.page) ss
  closed_keep [] among all = tt
  closed_keep (s ∷ ss) among all =
      let same = same_contents s.inode (among s.inode (Memᴰ.head refl)) in
      (
        record {
          number_older = all.0.number_older;
          inode_older = all.0.inode_older;
          file = same_file s.number (omega (arith, all.0.number_older)) ∙ all.0.file;
          holds = rw same all.0.holds;
          usable = rw same all.0.usable;
          filled = all.0.filled;
          end_fits = all.0.end_fits;
        },
        closed_keep ss (λ i m. among i (Memᴰ.tail m)) all.1,
      )

  -- The call of the one writer leaves the journal of the other.
  pub Represents-Confined : Represents v k h
  Represents-Confined =
      let same = same_contents h.page.buffer (Memᴰ.head refl) in
      record {
        closed = closed_keep h.closed (λ i m. Memᴰ.tail m) rep.closed;
        order = rep.order;
        cursor = rep.cursor;
        holds = rw same rep.holds;
        usable = rw same rep.usable;
        tail_fits = rep.tail_fits;
        owned = omega (arith, rep.owned, confined.inodes);
        file = same_file h.page.page_num more ∙ rep.file;
        unused = λ n lt fits. same_file n fits ∙ rep.unused n lt fits;
      }

  -- The journals stay apart, seen from either of them.
  pub Apart-first : Apart l k g' h
  Apart-first = record {
    paths = apart.paths;
    pages = λ i m o. apart.pages i (confined.pages_old i (inodes_of-lt w k h rep i o) m) o;
  }

  pub Apart-second : Apart k l h g → Apart k l h g'
  Apart-second other = record {
    paths = other.paths;
    pages = λ i o m. apart.pages i (confined.pages_old i (inodes_of-lt w k h rep i o) m) o;
  }
