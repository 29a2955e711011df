-- ===== src/Writer/Turned.antt =====
-- The disk after a writer over the local provider has turned to the next page of its journal.
use yijinjing_lite.Prelude.{
  ℕ, suc, ◌+◌, ◌%◌, ◌<◌, ◌≤◌, ◌^◌, ◌≡◌, ◌≢◌, refl, sym, subst, ◌∙◌, true, List, [], ◌∷◌, ◌++◌,
  length, some, none, arith, bytes_eq, bytes_eq_iff, false,
}
use yijinjing_lite.Constants.{frame_status_raw, page_min_headroom, journal_page_size}
use yijinjing_lite.FileName.{gen_page_full_path}
use yijinjing_lite.FileName.Paths.{bytes_eq-gen_page_full_path}
use yijinjing_lite.Page.{Page, finish_page, new_page}
use yijinjing_lite.Page.Header.{page_init_position}
use yijinjing_lite.Page.Log.{Message, Written}
use yijinjing_lite.Page.Cursor.{IsAt, moved, moved-IsAt}
use yijinjing_lite.Page.Close.{finish_page-Holds, finish_page-field}
use yijinjing_lite.Provider.{local_provider, numbered_page}
use yijinjing_lite.Provider.NewPage.{IsNewPage}
use yijinjing_lite.Provider.Local.{
  released, release_page-released, started_new, get_page-started, started_new-IsNewPage,
}
use yijinjing_lite.Journal.{locate_frame}
use yijinjing_lite.Journal.Turn.{closed}
use yijinjing_lite.Journal.Locate.{locate_frame-turns}
use yijinjing_lite.Writer.Frames.{Place, writing, at_page}
use yijinjing_lite.Writer.Log.{
  Log, Consecutive, path_of, Represents, Usable, Consecutive-append, All-append, All-map,
}
use yijinjing_lite.Writer.Refine.{IsSealed_keeps}
use yijinjing_lite.World.Effect.{ok}
use yijinjing_lite.World.{Os, World}
use yijinjing_lite.World.New.{Healthy}

module _ (os : Os) (healthy : Healthy os) (w : World) (l : Place) (g : Log) (rep : Represents w l g)
    (more : g.page.page_num + 1 < 2 ^ 15) where
  abbrev pub next_num : ℕ
  next_num = g.page.page_num + 1

  pub missing : w.files (gen_page_full_path l.directory l.short_name next_num) ≡ none
  missing = rep.unused next_num (omega arith) more

  abbrev pub started : World
  started = started_new os healthy l.directory l.short_name next_num w missing

  abbrev pub full_page : Page
  full_page = moved g.page g.tail 0

  abbrev pub fresh_page : Page
  fresh_page = moved (numbered_page w.inodes next_num) page_init_position 0

  abbrev pub turned_world : World
  turned_world = released os healthy g.page.buffer (closed os started full_page)

  -- The log with its open page closed, and an empty page behind it.
  abbrev pub turned_log : Log
  turned_log = record {
    first = g.first;
    closed =
        g.closed
        ++ (record {
          number = g.page.page_num;
          inode = g.page.buffer;
          frames = g.frames;
          tail = g.tail;
        }
            ∷ []);
    page = fresh_page;
    frames = [];
    tail = page_init_position;
  }

  other_contents : (j : ℕ) → j < g.page.buffer → turned_world.contents j ≡ w.contents j
  other_contents j lt = ground (arith, rep.owned)

  pub closed_contents :
      turned_world.contents g.page.buffer
      ≡ finish_page (w.contents g.page.buffer) full_page (os.clock started.readings)
  closed_contents = ground (arith, rep.owned)

  fresh_contents : turned_world.contents w.inodes ≡ started.contents w.inodes
  fresh_contents = ground (arith, rep.owned)

  pub files_ne :
      (n : ℕ) → n ≢ next_num → n < 2 ^ 15 → turned_world.files (path_of l n) ≡ w.files (path_of l n)
  files_ne n ne h =
      rw (bytes_eq-gen_page_full_path l.directory l.short_name next_num n more h (λ e. ne (sym e)))
        refl

  files_next : turned_world.files (path_of l next_num) ≡ some w.inodes
  files_next = rw ((bytes_eq_iff (path_of l next_num) (path_of l next_num)).1 refl) refl

  pub contents_elsewhere :
      (j : ℕ) → j < w.inodes → j ≢ g.page.buffer → turned_world.contents j ≡ w.contents j
  contents_elsewhere j lt ne = ground (arith, rep.owned, lt, ne)

  pub files_elsewhere :
      (p : List ℕ) → bytes_eq (path_of l next_num) p ≡ false → turned_world.files p ≡ w.files p
  files_elsewhere p apart = rw apart refl

  -- The name and the clock fit the header of the new page.
  module _ (short_name : length l.short_name < 30) (time_fits : os.clock w.readings < 2 ^ 64) where
    fresh_page-IsNewPage :
        IsNewPage
          (numbered_page w.inodes next_num)
          started
          l.short_name
          next_num
          (os.clock w.readings)
    fresh_page-IsNewPage =
        started_new-IsNewPage os healthy l.directory l.short_name next_num w missing short_name
          (omega arith) time_fits

    -- A page that is full has a frame.
    frames_filled : journal_page_size ≤ g.tail + page_min_headroom → g.frames ≢ []
    frames_filled full empty = absurd (
        omega (
          arith,
          subst
              (λ (fs : List Message).
                Written (w.contents g.page.buffer) page_init_position fs g.tail)
              empty rep.holds.log,
        ))

    closed-Usable : Usable (turned_world.contents g.page.buffer)
    closed-Usable =
        let field =
          finish_page-field (w.contents g.page.buffer) full_page (os.clock started.readings) g.tail
            g.frames frame_status_raw (moved-IsAt g.page g.tail 0) rep.holds in
        rw closed_contents (record {
          status = field 1 0 (omega arith) (omega arith) ∙ rep.usable.status;
          version = field 2 57 (omega arith) (omega arith) ∙ rep.usable.version;
        })

    pub turned_world-Represents :
        journal_page_size ≤ g.tail + page_min_headroom → Represents turned_world l turned_log
    unfolding numbered_page new_page
    turned_world-Represents full =
        let sealed =
          finish_page-Holds (w.contents g.page.buffer) full_page (os.clock started.readings) g.tail
            g.frames frame_status_raw (moved_here g.tail) rep.holds in
        record {
          closed =
              All-append _ g.closed _
                (All-map _ _ g.closed
                  (λ s h.
                    IsSealed_keeps w turned_world l g.page fresh_page s (omega arith) (omega arith)
                      other_contents (λ n lt. files_ne n (omega arith) (omega arith)) h)
                  rep.closed)
                (record {
                  number_older = omega arith;
                  inode_older = omega arith;
                  file = files_ne g.page.page_num (omega arith) (omega arith) ∙ rep.file;
                  holds = rw closed_contents sealed.0;
                  usable = closed-Usable;
                  filled = frames_filled full;
                  end_fits = rep.tail_fits;
                });
          order = ap_order (Consecutive-append g.first g.page.page_num g.closed _ rep.order refl);
          cursor = moved-IsAt (numbered_page w.inodes next_num) page_init_position 0;
          holds = rw fresh_contents fresh_page-IsNewPage.empty;
          usable = rw fresh_contents (record {
            status = fresh_page-IsNewPage.header.status;
            version = fresh_page-IsNewPage.header.version;
          });
          tail_fits = omega arith;
          owned = omega arith;
          file = files_next;
          unused = λ n lt h. files_ne n (omega arith) h ∙ rep.unused n (omega arith) h;
        }
      where
        moved_here : (b : ℕ) → IsAt (moved g.page b 0) b
        moved_here b = moved-IsAt g.page b 0

        ap_order :
            Consecutive g.first turned_log.closed (suc g.page.page_num)
            → Consecutive g.first turned_log.closed next_num
        ap_order = subst (λ (n : ℕ). Consecutive g.first turned_log.closed n) (omega arith)

    pub locate_frame-turned :
        (rounds : ℕ)
        → journal_page_size ≤ g.tail + page_min_headroom
        → locate_frame os (local_provider true) (suc (suc rounds)) (at_page w l g.page)
          ≡ (ok (some page_init_position), at_page turned_world l fresh_page)
    unfolding numbered_page new_page
    locate_frame-turned rounds full =
        let page_count : (g.page.page_num + 1) % 2 ^ 16 ≡ next_num = omega (arith, more) in
        locate_frame-turns os (local_provider true) rounds w started turned_world (writing l g.page)
          g.page (numbered_page w.inodes next_num) refl refl g.frames g.tail rep.cursor
          rep.holds.tail_status rep.tail_fits full
          (rw page_count
            (get_page-started os healthy l.directory l.short_name next_num w missing l.service_idx))
          (release_page-released os healthy true g.page.buffer (closed os started full_page))
          fresh_page-IsNewPage.cursor (rw fresh_contents fresh_page-IsNewPage.empty.tail_status)
