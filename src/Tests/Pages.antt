-- ===== src/Tests/Pages.antt =====
-- A page with one frame: the loops over it, a second frame, and its end.
use yijinjing_lite.Prelude.{
  ◌+◌, ◌≡◌, true, [], ◌∷◌, none, some, codes, length, arith, ltb, ◌==◌, ◌&&◌, if◌then◌else◌,
}
use yijinjing_lite.Constants.{frame_status_raw, page_min_headroom, journal_page_size, hash_seed}
use yijinjing_lite.Hash.{murmur_hash2}
use yijinjing_lite.Frame.{get_status, get_data_length, get_str, get_hash_code, set_data}
use yijinjing_lite.Frame.Fields.{get_str-set_data}
use yijinjing_lite.Page.{pass_to_time, locate_writable_frame}
use yijinjing_lite.Page.Header.{page_init_position}
use yijinjing_lite.Page.Log.{Holds}
use yijinjing_lite.Page.Cursor.{
  moved, older, end_of, pass_to_time-older, locate_writable_frame-Holds,
}
use yijinjing_lite.Writer.Store.{store_frame, run_first, write_statements}
use yijinjing_lite.Writer.Publish.{publish_atomic}
use yijinjing_lite.Writer.Bounds.{store_frame_in_page}
use yijinjing_lite.Tests.Fixtures.{
  zeros, hello, hello-Fits, page_at, page_at-IsAt, logged, logged-Holds,
}

publish_atomic_example :
    Holds (run_first 5 (write_statements true 162 hello) logged) (hello ∷ []) 162 frame_status_raw
publish_atomic_example =
    publish_atomic true logged 162 hello hello-Fits (omega arith) (hello ∷ []) logged-Holds 5
      (omega arith)

pass_to_time-older_example :
    pass_to_time 5 logged (page_at page_init_position) 1000
    ≡ some (
        moved
          (page_at page_init_position)
          (end_of page_init_position (older 1000 (hello ∷ [])))
          (length (older 1000 (hello ∷ []))))
pass_to_time-older_example =
    pass_to_time-older 5 logged (page_at page_init_position) page_init_position (hello ∷ []) 162
      1000 (page_at-IsAt page_init_position) logged-Holds.log
      (λ e. omega (arith, e, logged-Holds.tail_status)) (omega arith) (omega arith)

locate_writable_frame-Holds_example :
    locate_writable_frame 5 logged (page_at page_init_position)
    ≡ some (
      moved (page_at page_init_position) 162 1,
      if get_status logged 162 == frame_status_raw
            && ltb (162 + page_min_headroom) journal_page_size
          then some 162
          else none,
    )
locate_writable_frame-Holds_example =
    locate_writable_frame-Holds 5 logged (page_at page_init_position) page_init_position
      (hello ∷ []) 162 (page_at-IsAt page_init_position) logged-Holds.log
      (λ e. omega (arith, e, logged-Holds.tail_status)) (omega arith) (omega arith)

get_str-set_data_example :
    (get_data_length (set_data true zeros 137 (codes "hello")) 137 ≡ 5)
    × (get_str (set_data true zeros 137 (codes "hello")) 137 ≡ codes "hello")
    × (get_hash_code (set_data true zeros 137 (codes "hello")) 137
        ≡ murmur_hash2 (codes "hello") hash_seed)
get_str-set_data_example = get_str-set_data true zeros 137 (codes "hello") (omega arith)

store_frame_in_page_example :
    store_frame true logged 162 hello journal_page_size ≡ logged journal_page_size
store_frame_in_page_example =
    store_frame_in_page true logged 162 hello hello-Fits (omega arith) (omega arith)
      journal_page_size (omega arith)
