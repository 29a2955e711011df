-- ===== src/Writer/Log.antt =====
-- A journal as one list of messages, over the page files that a writer has filled: the abstract
-- view of what JournalWriter.cpp and Journal.cpp keep on the disk.
use yijinjing_lite.Prelude.{
  ℕ, suc, ◌<◌, ◌≤◌, ◌^◌, ◌≡◌, ◌≢◌, sym, ap, ◌∙◌, List, [], ◌∷◌, ◌++◌, some, none, All, arith,
}
use mathlib.Core.List.{append-nil, append_assoc}
use yijinjing_lite.Constants.{
  frame_status_raw, frame_status_page_end, journal_page_size, page_status_inited,
  frame_header_version,
}
use yijinjing_lite.Memory.{Memory, read_le, read_le_agree}
use yijinjing_lite.Page.Header.{page_init_position, frame_version_offset}
use yijinjing_lite.FileName.{gen_page_full_path}
use yijinjing_lite.Page.{Page}
use yijinjing_lite.Page.Log.{Message, Holds, Agree}
use yijinjing_lite.Page.Cursor.{IsAt}
use yijinjing_lite.Writer.Frames.{Place}
use yijinjing_lite.World.{World}

-- A page that the writer has closed.
pub record Sealed : Type 0 where
  pub number : ℕ
  pub inode : ℕ
  pub frames : List Message
  pub tail : ℕ

-- The closed pages, from page `first` on, and the open one with its frames.
pub record Log : Type 0 where
  pub first : ℕ
  pub closed : List Sealed
  pub page : Page
  pub frames : List Message
  pub tail : ℕ

abbrev pub closed_messages : List Sealed → List Message
closed_messages [] = []
closed_messages (s ∷ ss) = s.frames ++ closed_messages ss

-- The journal.
abbrev pub messages : Log → List Message
messages g = closed_messages g.closed ++ g.frames

abbrev pub path_of : Place → ℕ → List ℕ
path_of l n = gen_page_full_path l.directory l.short_name n

-- The pages have the numbers from the first one up to `n`, which is not among them.
abbrev pub Consecutive : ℕ → List Sealed → ℕ → Type 0
Consecutive first [] n = first ≡ n
Consecutive first (s ∷ ss) n = (s.number ≡ first) × Consecutive (suc first) ss n

-- A page whose header `Page::load` accepts.
pub record Usable (m : Memory) : Type 0 where
  pub status : read_le 1 m 0 ≡ page_status_inited
  pub version : read_le 2 m frame_version_offset ≡ frame_header_version

-- A closed page in its file, older than the open page `p`.
pub record IsSealed (w : World) (l : Place) (p : Page) (s : Sealed) : Type 0 where
  pub number_older : s.number < p.page_num
  pub inode_older : s.inode < p.buffer
  pub file : w.files (path_of l s.number) ≡ some s.inode
  pub holds : Holds (w.contents s.inode) s.frames s.tail frame_status_page_end
  pub usable : Usable (w.contents s.inode)
  pub filled : s.frames ≢ []
  pub end_fits : s.tail ≤ journal_page_size

-- The disk holds the log: every page in its file, the open one with a clean frame behind the
-- cursor, and no files for later pages.
pub record Represents (w : World) (l : Place) (g : Log) : Type 0 where
  pub closed : All (IsSealed w l g.page) g.closed
  pub order : Consecutive g.first g.closed g.page.page_num
  pub cursor : IsAt g.page g.tail
  pub holds : Holds (w.contents g.page.buffer) g.frames g.tail frame_status_raw
  pub usable : Usable (w.contents g.page.buffer)
  pub tail_fits : g.tail ≤ journal_page_size
  pub owned : g.page.buffer < w.inodes
  pub file : w.files (path_of l g.page.page_num) ≡ some g.page.buffer
  pub unused : (n : ℕ) → g.page.page_num < n → n < 2 ^ 15 → w.files (path_of l n) ≡ none

pub Usable-Agree :
    (m m' : Memory) (b : ℕ) → page_init_position ≤ b → Agree m m' 0 b → Usable m → Usable m'
Usable-Agree m m' b h e u = record {
  status = sym (read_le_agree 1 m m' 0 (λ c lo hi. e c (omega arith) (omega arith))) ∙ u.status;
  version = sym (read_le_agree 2 m m' 57 (λ c lo hi. e c (omega arith) (omega arith))) ∙ u.version;
}

pub Consecutive-append :
    (first n : ℕ) (ss : List Sealed) (s : Sealed)
    → Consecutive first ss n
    → s.number ≡ n
    → Consecutive first (ss ++ s ∷ []) (suc n)
Consecutive-append first n [] s e h = (h ∙ sym e, ap suc e)
Consecutive-append first n (t ∷ ss) s e h = (e.0, Consecutive-append (suc first) n ss s e.1 h)

pub closed_messages-append :
    (ss : List Sealed) (s : Sealed)
    → closed_messages (ss ++ s ∷ []) ≡ closed_messages ss ++ s.frames
closed_messages-append [] s = append-nil s.frames
closed_messages-append (t ∷ ss) s =
    ap (◌++◌ t.frames) (closed_messages-append ss s)
    ∙ sym (append_assoc t.frames (closed_messages ss) s.frames)

pub All-append {ℓ κ} :
    {A : Type ℓ} (P : A → Type κ) (xs : List A) (x : A) → All P xs → P x → All P (xs ++ x ∷ [])
All-append P [] x h p = (p, tt)
All-append P (y ∷ xs) x h p = (h.0, All-append P xs x h.1 p)

pub All-map {ℓ κ μ} :
    {A : Type ℓ} (P : A → Type κ) (Q : A → Type μ) (xs : List A)
    → ((x : A) → P x → Q x)
    → All P xs
    → All Q xs
All-map P Q [] f h = tt
All-map P Q (x ∷ xs) f h = (f x h.0, All-map P Q xs f h.1)
