-- ===== src/Journal.antt =====
-- include/yijinjing/journal/Journal.h and Journal.cpp: one journal as endless memory over its
-- page files. A method acts on the world and on the object, and what it changed before a fault
-- stays. Every loop takes the same `fuel`.
pub mod Object
pub mod Turn
pub mod Locate
pub use Object.{Journal, Session, on_world, gets, modify}
use yijinjing_lite.Prelude.{
  ℕ, zero, suc, ◌+◌, ◌-◌, ◌%◌, ◌^◌, Bool, true, false, not, List, [], ◌∷◌, reverse, Option, none,
  some, ◌==◌, if◌then◌else◌,
}
use yijinjing_lite.Constants.{time_to_last, time_from_first}
use yijinjing_lite.Memory.{Memory}
use yijinjing_lite.Page.{
  Page, is_at_page_end, pass_frame, pass_written_frame, pass_to_time, locate_writable_frame,
  locate_readable_frame, finish_page,
}
use yijinjing_lite.Directory.{get_page_nums, get_page_num_with_time}
use yijinjing_lite.Provider.{Provider, get_page, release_page}
use yijinjing_lite.World.Effect.{
  Run, ok, fault, pure, raise, ◌>>=◌, ◌>>◌, null_pointer, out_of_fuel,
}
use yijinjing_lite.World.{Os, World, update, peek, get_nano_time}

set_cur_page : Option Page → Run Session Unit
set_cur_page p = modify (λ j. record j { cur_page = p })

-- Journal::create
unfoldable pub create : List ℕ → List ℕ → ℕ → Provider → Journal
create dir jname service_idx provider = record {
  service_idx = service_idx;
  directory = dir;
  short_name = jname;
  is_writing = provider.is_writer;
  expired = false;
  cur_page = none;
}

-- The current page after a move, `none` when the fuel has run out.
set_moved : Option Page → Run Session Unit
unfolding set_cur_page
set_moved none = raise out_of_fuel
set_moved (some p) = set_cur_page (some p)

first_or : ℕ → List ℕ → ℕ
first_or d [] = d
first_or d (n ∷ ns) = n

module _ (os : Os) (provider : Provider) (fuel : ℕ) where
  -- pageProvider->getPage(directory, shortName, serviceIdx, pageNum)
  get_own_page : ℕ → Run Session (Option Page)
  get_own_page page_num s =
      on_world
        (get_page os provider s.journal.directory s.journal.short_name s.journal.service_idx
          page_num)
        s

  release_current : Option Page → Run Session Unit
  release_current none = pure tt
  release_current (some p) = on_world (release_page os provider p.buffer)

  own_page_nums : Run Session (List ℕ)
  own_page_nums s = (ok (get_page_nums os s.journal.directory s.journal.short_name s.world), s)

  pass_written : Option Page → Run Session Unit
  unfolding set_moved
  pass_written none = pure tt
  pass_written (some p) = do m ← on_world (peek p.buffer); set_moved (pass_written_frame fuel m p)

  pass_older : ℕ → Option Page → Run Session Unit
  unfolding set_moved
  pass_older time none = pure tt
  pass_older time (some p) = do m ← on_world (peek p.buffer); set_moved (pass_to_time fuel m p time)

  seek_last : Run Session Unit
  unfolding get_own_page own_page_nums pass_written first_or set_cur_page
  seek_last = do
    page_nums ← own_page_nums
    p ← get_own_page (first_or 1 (reverse page_nums))
    set_cur_page p
    pass_written p

  seek_first : Run Session Unit
  unfolding get_own_page own_page_nums first_or set_cur_page
  seek_first = do page_nums ← own_page_nums; p ← get_own_page (first_or 1 page_nums); set_cur_page p

  seek_past : ℕ → Run Session Unit
  unfolding get_own_page pass_older set_cur_page
  seek_past time = do
    dir ← gets (λ j. j.directory)
    jname ← gets (λ j. j.short_name)
    page_num ← on_world (get_page_num_with_time os dir jname time)
    p ← get_own_page page_num
    set_cur_page p
    pass_older time p

  is_missing : Option Page → Bool
  is_missing none = true
  is_missing (some p) = false

  -- Journal::seekTime
  unfoldable pub seek_time : ℕ → Run Session Bool
  unfolding release_current seek_last seek_first seek_past is_missing
  seek_time time = do
    old ← gets (λ j. j.cur_page)
    release_current old
    if time == time_to_last
        then seek_last
        else if time == time_from_first
        then seek_first
        else seek_past time
    p ← gets (λ j. j.cur_page)
    modify (λ j. record j { expired = is_missing p })
    pure (not (is_missing p))

  finish_current : Page → Run Session Unit
  finish_current p = do
    nano ← on_world (get_nano_time os)
    on_world (update p.buffer (λ m. finish_page m p nano))

  load_after : Option Page → Run Session Unit
  unfolding get_own_page finish_current release_current set_cur_page
  load_after none = do p ← get_own_page 1; set_cur_page p
  load_after (some p) = do
    new_page ← get_own_page ((p.page_num + 1) % 2 ^ 16)
    is_writing ← gets (λ j. j.is_writing)
    if is_writing then finish_current p else pure tt
    release_current (some p)
    set_cur_page new_page

  -- Journal::loadNextPage
  unfoldable pub load_next_page : Run Session Unit
  unfolding load_after
  load_next_page s = if s.journal.expired then (ok tt, s) else load_after s.journal.cur_page s

  -- curPage->locateWritableFrame()
  locate_in_current : Option Page → Run Session (Option ℕ)
  unfolding set_cur_page
  locate_in_current none s = (fault null_pointer, s)
  locate_in_current (some p) s = elim (locate_writable_frame fuel (s.world.contents p.buffer) p) [
    | none ↦ (fault out_of_fuel, s)
    | some (q, found) ↦ (ok found, record s { journal = record s.journal { cur_page = some q } })
  ]

  -- The loop of the writer's half of locateFrame.
  locate_writing : ℕ → Run Session (Option ℕ)
  unfolding locate_in_current
  locate_writing zero = raise out_of_fuel
  locate_writing (suc rounds) = do
    p ← gets (λ j. j.cur_page)
    found ← locate_in_current p
    elim found [ some f ↦ pure (some f) | none ↦ do load_next_page; locate_writing rounds ]

  at_end_or_missing : Option Page → Session → Bool
  at_end_or_missing none s = true
  at_end_or_missing (some p) s = is_at_page_end (s.world.contents p.buffer) p

  readable_in : Option Page → Session → Option ℕ
  readable_in none s = none
  readable_in (some p) s = locate_readable_frame (s.world.contents p.buffer) p

  locate_reading : Run Session (Option ℕ)
  unfolding at_end_or_missing readable_in
  locate_reading = do
    p ← gets (λ j. j.cur_page)
    turn ← (λ s. (ok (at_end_or_missing p s), s))
    if turn then load_next_page else pure tt
    q ← gets (λ j. j.cur_page)
    λ s. (ok (readable_in q s), s)

  -- Journal::locateFrame
  unfoldable pub locate_frame : Run Session (Option ℕ)
  unfolding locate_writing locate_reading
  locate_frame s =
      if s.journal.expired
      then (ok none, s)
      else if s.journal.is_writing
      then locate_writing fuel s
      else locate_reading s

  pass_in : Option Page → Run Session Unit
  unfolding set_cur_page
  pass_in none = raise null_pointer
  pass_in (some p) = do m ← on_world (peek p.buffer); set_cur_page (some (pass_frame m p))

  -- Journal::passFrame
  unfoldable pub pass_current_frame : Run Session Unit
  unfolding pass_in
  pass_current_frame = do p ← gets (λ j. j.cur_page); pass_in p

  -- Journal::expire
  unfoldable pub expire : Run Session Unit
  unfolding release_current get_own_page set_cur_page
  expire s =
      if s.journal.expired
      then (ok tt, s)
      else (do
        modify (λ j. record j { expired = true })
        p ← gets (λ j. j.cur_page)
        release_current p
        set_cur_page none
        get_own_page (2 ^ 16 - 1)
        pure tt)
          s
