-- ===== src/Provider/Local.antt =====
-- The provider of LocalPageProvider.cpp where every call of the system succeeds: the page that a
-- writer gets for a number whose file is missing, and what it leaves of one that it releases.
use yijinjing_lite.Prelude.{
  ℕ, ◌<◌, ◌^◌, ◌≡◌, refl, ◌∙◌, Bool, true, false, List, length, some, none, arith,
}
use yijinjing_lite.Constants.{journal_page_size, page_status_inited, frame_header_version}
use yijinjing_lite.Memory.{poke, read_le}
use yijinjing_lite.Page.Header.{frame_version_offset}
use yijinjing_lite.FileName.{gen_page_full_path}
use yijinjing_lite.Provider.{
  load, load_mapped, numbered_page, local_provider, get_page, release_page,
}
use yijinjing_lite.Provider.NewPage.{IsNewPage, begun, load_mapped-begun, begun-IsNewPage}
use yijinjing_lite.World.Effect.{ok, bind_returns}
use yijinjing_lite.World.{Os, World, drop_one, load_page_buffer, release_page_buffer}
use yijinjing_lite.World.New.{
  Healthy, grown, opened, load_page_buffer-grown, load_page_buffer-opened,
}

module _ (os : Os) (healthy : Healthy os) where
  abbrev pub released : ℕ → World → World
  released i w = record w { locked = drop_one i w.locked; mapped = drop_one i w.mapped }

  pub release_page-released :
      (b : Bool) (i : ℕ) (w : World)
      → release_page os (local_provider b) i w ≡ (ok tt, released i w)
  unfolding release_page release_page_buffer
  release_page-released b i w = rw (healthy.unlocks i, healthy.unmaps i) refl

  module _ (dir jname : List ℕ) (page_num : ℕ) (w : World)
      (missing : w.files (gen_page_full_path dir jname page_num) ≡ none) where
    abbrev pub mapped_new : World
    mapped_new = grown os (gen_page_full_path dir jname page_num) journal_page_size w

    abbrev pub started_new : World
    started_new = begun os dir jname page_num w.inodes mapped_new

    mapped_new-zeros : (c : ℕ) → mapped_new.contents w.inodes c ≡ 0
    unfolding poke
    mapped_new-zeros c = ground arith

    pub get_page-started :
        (service_idx : ℕ)
        → get_page os (local_provider true) dir jname service_idx page_num w
          ≡ (ok (some (numbered_page w.inodes page_num)), started_new)
    unfolding get_page load
    get_page-started service_idx =
        bind_returns
          (load_page_buffer os (gen_page_full_path dir jname page_num) journal_page_size true false)
          _ w mapped_new (some w.inodes)
          (load_page_buffer-grown os healthy (gen_page_full_path dir jname page_num)
            journal_page_size w missing)
        ∙ load_mapped-begun os dir jname page_num w.inodes mapped_new mapped_new-zeros

    pub started_new-IsNewPage :
        length jname < 30
        → page_num < 2 ^ 16
        → os.clock w.readings < 2 ^ 64
        → IsNewPage
            (numbered_page w.inodes page_num)
            started_new
            jname
            page_num
            (os.clock w.readings)
    started_new-IsNewPage h1 h2 h3 =
        begun-IsNewPage os dir jname page_num w.inodes mapped_new h1 h2 h3 mapped_new-zeros

  module _ (dir jname : List ℕ) (page_num : ℕ) (w : World) (i : ℕ) where
    abbrev pub opened_page : World
    opened_page = opened os healthy (gen_page_full_path dir jname page_num) i w

    -- A reader gets a page whose file is there, with a header that `Page::load` accepts.
    pub get_page-opened :
        (service_idx : ℕ)
        → w.files (gen_page_full_path dir jname page_num) ≡ some i
        → read_le 1 (w.contents i) 0 ≡ page_status_inited
        → read_le 2 (w.contents i) frame_version_offset ≡ frame_header_version
        → get_page os (local_provider false) dir jname service_idx page_num w
          ≡ (ok (some (numbered_page i page_num)), opened_page)
    unfolding get_page load
    get_page-opened service_idx there inited version =
        let path = gen_page_full_path dir jname page_num in
        bind_returns (load_page_buffer os path journal_page_size false false) _ w opened_page
          (some i) (load_page_buffer-opened os healthy path journal_page_size w i there)
        ∙ accepted
      where
        accepted :
            load_mapped os jname page_num false i opened_page
            ≡ (ok (some (numbered_page i page_num)), opened_page)
        accepted = ground (arith, inited, version)
