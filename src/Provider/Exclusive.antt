-- ===== src/Provider/Exclusive.antt =====
-- Two writers of one page: `getPage` of a client against the engine.
use yijinjing_lite.Prelude.{ℕ, ◌≡◌, List, Option, some, true, arith}
use yijinjing_lite.Comm.{FileKey, comm_more_than_one_write}
use yijinjing_lite.Memory.{short_lt}
use yijinjing_lite.Map.{find, bytes_key}
use yijinjing_lite.Engine.State.{file_key}
use yijinjing_lite.Engine.Pages.{path_of}
use yijinjing_lite.Engine.Service.{comm_round, release_last, serve, answer}
use yijinjing_lite.Engine.Exclusive.{initiate_page-refuses}
use yijinjing_lite.Provider.{get_page}
use yijinjing_lite.Provider.Client.{client_provider, post, request}
use yijinjing_lite.World.Effect.{ok, fault, more_than_one_writer}
use yijinjing_lite.World.{Os, World}

module _ (os : Os) (name : List ℕ) (hash_code : ℕ) (dir jname : List ℕ) (idx page_num : ℕ)
    (w : World) where
  -- The page that block `idx` asks for.
  abbrev pub wanted : FileKey
  wanted = record ((w.comm idx).key) { page_num = page_num }

  serve-refused :
      (n : ℕ) (a : Option ℕ)
      → (w.comm idx).is_writer ≡ true
      → (w.comm idx).last_page_num ≡ 0
      → find w.engine.file_writer_counts wanted ≡ some n
      → find w.engine.file_addrs (path_of wanted) ≡ some a
      → (((comm_round os idx (post idx page_num w)).1.comm idx).status ≡ comm_more_than_one_write)
        × (comm_round os idx (post idx page_num w)
            ≡ (ok tt, (comm_round os idx (post idx page_num w)).1))
        × ((comm_round os idx (post idx page_num w)).1.engine ≡ w.engine)
  unfolding post comm_round serve release_last answer short_lt
  serve-refused n a b l e f =
      let refused = initiate_page-refuses os wanted n a (post idx page_num w) e f in
      ground (arith, b, l, refused)

  request-refused :
      (n : ℕ) (a : Option ℕ)
      → (w.comm idx).is_writer ≡ true
      → (w.comm idx).last_page_num ≡ 0
      → find w.engine.file_writer_counts wanted ≡ some n
      → find w.engine.file_addrs (path_of wanted) ≡ some a
      → ((request os name true idx page_num w).0 ≡ ok comm_more_than_one_write)
        × ((request os name true idx page_num w).1.engine ≡ w.engine)
  unfolding request
  request-refused n a b l e f =
      let round = serve-refused n a b l e f in ground (arith, round.0, round.1)

  -- A client's `getPage` for a page that has a writer and is mapped, from the block of a
  -- writer that has had no page yet, ends in the error for more than one writer, and the
  -- engine's state is as before.
  pub get_page-refused :
      (n : ℕ) (a : Option ℕ)
      → (w.comm idx).is_writer ≡ true
      → (w.comm idx).last_page_num ≡ 0
      → find w.engine.file_writer_counts wanted ≡ some n
      → find w.engine.file_addrs (path_of wanted) ≡ some a
      → ((get_page os (client_provider os name true hash_code) dir jname idx page_num w).0
          ≡ fault more_than_one_writer)
        × ((get_page os (client_provider os name true hash_code) dir jname idx page_num w).1.engine
            ≡ w.engine)
  unfolding get_page client_provider
  get_page-refused n a b l e f =
      let asked = request-refused n a b l e f in ground (arith, asked.0, asked.1)
