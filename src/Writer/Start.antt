-- ===== src/Writer/Start.antt =====
-- `init` of JournalWriter.cpp over the local provider, for a journal that has no files.
use yijinjing_lite.Prelude.{
  ℕ, suc, ◌-◌, ◌<◌, ◌^◌, ◌≡◌, refl, Bool, true, List, [], length, some, none, arith, bytes_eq_iff,
}
use yijinjing_lite.Constants.{time_to_last}
use yijinjing_lite.FileName.{gen_page_full_path}
use yijinjing_lite.FileName.Paths.{bytes_eq-gen_page_full_path}
use yijinjing_lite.Page.{Page, new_page, pass_written_frame}
use yijinjing_lite.Page.Header.{page_init_position}
use yijinjing_lite.Page.Cursor.{moved, moved-IsAt, pass_written_frame-moved}
use yijinjing_lite.Directory.{get_page_nums}
use yijinjing_lite.Provider.{local_provider, numbered_page}
use yijinjing_lite.Provider.NewPage.{IsNewPage}
use yijinjing_lite.Provider.Local.{started_new, get_page-started, started_new-IsNewPage}
use yijinjing_lite.Journal.{Journal, create, seek_time, locate_frame}
use yijinjing_lite.Writer.Frames.{Place, at_page, has_room, locate_frame-found}
use yijinjing_lite.Writer.Confined.{Confined}
use yijinjing_lite.Writer.Log.{Log, path_of, Represents}
use yijinjing_lite.Writer.{init, seek_end, add_journal, strip_slash}
use yijinjing_lite.World.Effect.{ok, ◌>>=◌}
use yijinjing_lite.World.{Os, World}
use yijinjing_lite.World.New.{Healthy}

module _ (os : Os) (healthy : Healthy os) (w : World) (dir jname : List ℕ)
    (unused : (n : ℕ)
      → n < 2 ^ 15
      → w.files (gen_page_full_path (strip_slash dir) jname n) ≡ none) where
  abbrev pub new_place : Place
  new_place = record { service_idx = 2 ^ 32 - 1; directory = strip_slash dir; short_name = jname }

  pub no_first : w.files (gen_page_full_path (strip_slash dir) jname 1) ≡ none
  no_first = unused 1 (omega arith)

  abbrev pub begun_world : World
  begun_world = started_new os healthy (strip_slash dir) jname 1 w no_first

  abbrev pub first_page : Page
  first_page = moved (numbered_page w.inodes 1) page_init_position 0

  abbrev pub empty_log : Log
  empty_log = record {
    first = 1;
    closed = [];
    page = moved first_page page_init_position 0;
    frames = [];
    tail = page_init_position;
  }

  module _ (short_name : length jname < 30) (time_fits : os.clock w.readings < 2 ^ 64) where
    numbered_page-IsNewPage :
        IsNewPage (numbered_page w.inodes 1) begun_world jname 1 (os.clock w.readings)
    numbered_page-IsNewPage =
        started_new-IsNewPage os healthy (strip_slash dir) jname 1 w no_first short_name
          (omega arith) time_fits

    pub begun_world-Represents : Represents begun_world new_place empty_log
    unfolding numbered_page new_page
    begun_world-Represents = record {
      closed = tt;
      order = refl;
      cursor = moved-IsAt first_page page_init_position 0;
      holds = numbered_page-IsNewPage.empty;
      usable = record {
        status = numbered_page-IsNewPage.header.status;
        version = numbered_page-IsNewPage.header.version;
      };
      tail_fits = omega arith;
      owned = omega arith;
      file = rw ((bytes_eq_iff (path_of new_place 1) (path_of new_place 1)).1 refl) refl;
      unused = λ n lt h.
          rw
            (bytes_eq-gen_page_full_path (strip_slash dir) jname 1 n (omega arith) h
              (λ e. absurd (omega arith)))
            (unused n h);
    }

    -- The journal as `addJournal` makes it.
    abbrev unseeked : Journal
    unseeked = create (strip_slash dir) jname (2 ^ 32 - 1) (local_provider true)

    pass_written_frame-none :
        (rounds : ℕ)
        → pass_written_frame
            (suc rounds)
            (begun_world.contents (numbered_page w.inodes 1).buffer)
            (numbered_page w.inodes 1)
          ≡ some first_page
    unfolding numbered_page new_page
    pass_written_frame-none rounds =
        let raw = numbered_page-IsNewPage.empty.tail_status in
        pass_written_frame-moved (suc rounds) (begun_world.contents w.inodes)
          (numbered_page w.inodes 1) page_init_position [] page_init_position
          numbered_page-IsNewPage.cursor refl (λ e. absurd (omega (arith, raw, e))) (omega arith)
          (omega arith)

    module _ (rounds : ℕ) (listed : get_page_nums os (strip_slash dir) jname w ≡ []) where
      seek_time-starts :
          seek_time os
            (local_provider true)
            (suc rounds)
            time_to_last
            (record { world = w; journal = unseeked })
          ≡ (ok true, at_page begun_world new_place first_page)
      unfolding seek_time create
      seek_time-starts =
          let got = get_page-started os healthy (strip_slash dir) jname 1 w no_first (2 ^ 32 - 1) in
          let stays = pass_written_frame-none rounds in ground (arith, listed, got, stays)

      locate_frame-starts :
          locate_frame os
            (local_provider true)
            (suc rounds)
            (at_page begun_world new_place first_page)
          ≡ (ok (some page_init_position), at_page begun_world new_place empty_log.page)
      unfolding numbered_page new_page
      locate_frame-starts =
          locate_frame-found os (local_provider true) rounds begun_world new_place first_page
            empty_log.page page_init_position
            (has_room (suc rounds) (begun_world.contents w.inodes) first_page page_init_position []
              page_init_position (moved-IsAt (numbered_page w.inodes 1) page_init_position 0) refl
              numbered_page-IsNewPage.empty.tail_status (omega arith) (omega arith))

      -- If the journal has no files and is listed without any, `init` of a writer over the
      -- local provider returns, and the disk then holds an empty journal with the writer
      -- in page 1. The system calls succeed, the reading of the clock fits 64 bits and the
      -- name has under 30 bytes.
      pub init-Represents :
          (auto_hash : Bool) (j : Journal)
          → (init os
                (local_provider true)
                auto_hash
                (suc rounds)
                dir
                jname
                (record { world = w; journal = j })
              ≡ (ok tt, at_page begun_world new_place empty_log.page))
            × Represents begun_world new_place empty_log
      unfolding init seek_end add_journal create
      init-Represents auto_hash j =
          (rw (seek_time-starts, ◌>>=◌, locate_frame-starts) refl, begun_world-Represents)

    -- What `init` leaves of the journals of the others.
    pub begun_world-Confined : Confined w new_place empty_log empty_log begun_world
    begun_world-Confined = record {
      contents = λ j lt ne. ground (arith, lt, ne);
      files = λ p apart. rw (apart 1 (omega arith)) refl;
      inodes = omega arith;
      readings = omega arith;
      pages_old = λ i lt m. m;
    }
