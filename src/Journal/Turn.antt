-- ===== src/Journal/Turn.antt =====
-- `loadNextPage`: a writer's turn to the next page file.
use yijinjing_lite.Prelude.{
  ℕ, ◌+◌, ◌%◌, ◌^◌, ◌≡◌, List, Option, some, true, false, arith, ap, sym, ◌∙◌,
}
use yijinjing_lite.Constants.{frame_status_page_end}
use yijinjing_lite.Page.{Page, is_at_page_end, finish_page}
use yijinjing_lite.Page.Log.{Message, Holds}
use yijinjing_lite.Page.Cursor.{IsAt}
use yijinjing_lite.Page.Close.{finish_page-Holds}
use yijinjing_lite.Provider.{Provider, get_page, release_page}
use yijinjing_lite.Journal.{Journal, load_next_page}
use yijinjing_lite.World.Effect.{ok, Result}
use yijinjing_lite.World.Frames.{contents-release_page_buffer}
use yijinjing_lite.World.{Os, World, put_at, put_at_self, get_nano_time}

-- The world after the page is closed at the time of the clock.
abbrev pub closed : Os → World → Page → World
closed os v p = record v {
  readings = v.readings + 1;
  contents = put_at v.contents p.buffer (finish_page (v.contents p.buffer) p (os.clock v.readings));
}

module _ (os : Os) (provider : Provider) (fuel : ℕ) (w v u : World) (j : Journal) (p : Page)
    (q : Option Page) where
  pub load_next_page-closes :
      j.expired ≡ false
      → j.is_writing ≡ true
      → j.cur_page ≡ some p
      → get_page os provider j.directory j.short_name j.service_idx ((p.page_num + 1) % 2 ^ 16) w
        ≡ (ok q, v)
      → release_page os provider p.buffer (closed os v p) ≡ (ok tt, u)
      → load_next_page os provider fuel (record { world = w; journal = j })
        ≡ (ok tt, record { world = u; journal = record j { cur_page = q } })
  unfolding load_next_page get_nano_time
  load_next_page-closes live writes at got freed = ground (arith, live, writes, at, got, freed)

  release_page-contents :
      release_page os provider p.buffer (closed os v p) ≡ (ok tt, u)
      → u.contents p.buffer ≡ finish_page (v.contents p.buffer) p (os.clock v.readings)
  unfolding release_page
  release_page-contents freed =
      sym (ap (λ (r : Result Unit × World). r.1.contents p.buffer) freed)
      ∙ contents-release_page_buffer os p.buffer provider.quick_mode (closed os v p) p.buffer
      ∙ put_at_self v.contents p.buffer _

  -- A live writer that turns the page asks for the next one first. Then the old page, which
  -- held a log up to the cursor, keeps it and is marked as ended behind it, and the writer is
  -- at what the provider gave, a page or none. The provider answers without a fault, and the
  -- old page can be unmapped.
  pub load_next_page-Holds :
      (rs : List Message) (b st : ℕ)
      → j.expired ≡ false
      → j.is_writing ≡ true
      → j.cur_page ≡ some p
      → get_page os provider j.directory j.short_name j.service_idx ((p.page_num + 1) % 2 ^ 16) w
        ≡ (ok q, v)
      → release_page os provider p.buffer (closed os v p) ≡ (ok tt, u)
      → IsAt p b
      → Holds (v.contents p.buffer) rs b st
      → (load_next_page os provider fuel (record { world = w; journal = j })
          ≡ (ok tt, record { world = u; journal = record j { cur_page = q } }))
        × Holds (u.contents p.buffer) rs b frame_status_page_end
        × (is_at_page_end (u.contents p.buffer) p ≡ true)
  load_next_page-Holds rs b st live writes at got freed cursor h =
      let (log, end) =
        finish_page-Holds (v.contents p.buffer) p (os.clock v.readings) b rs st cursor h in
      (
        load_next_page-closes live writes at got freed,
        rw (release_page-contents freed) log,
        rw (release_page-contents freed) end,
      )
