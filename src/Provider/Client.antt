-- ===== src/Provider/Client.antt =====
-- include/yijinjing/journal/ClientPageProvider.cpp against the engine: a request is posted in the
-- user's block of the communication file, and the wait ends after the engine's next round over
-- that block. Requests over the socket are calls of the engine.
use yijinjing_lite.Prelude.{ℕ, ◌^◌, Bool, true, false, List, none, some, ltb, ◌==◌, if◌then◌else◌}
use yijinjing_lite.Comm.{comm_size, comm_occupied, comm_holding, comm_requesting}
use yijinjing_lite.Engine.Clients.{reg_journal, reg_client, exit_client}
use yijinjing_lite.Engine.Service.{comm_round}
use yijinjing_lite.Provider.{Provider}
use yijinjing_lite.World.Effect.{
  Run, ok, fault, pure, raise, ◌>>=◌, ◌>>◌, cannot_register_client, cannot_register_journal,
  buffer_not_allocated,
}
use yijinjing_lite.World.{Os, World, put_at, load_page_buffer}

-- The first two statements of getPage.
unfoldable pub post : ℕ → ℕ → World → World
post idx page_num w =
    let msg = w.comm idx in
    record w {
      comm =
          put_at w.comm idx (record msg {
            status = comm_requesting;
            key = record (msg.key) { page_num = page_num };
          });
    }

-- What register_journal writes into a block that the engine has assigned.
unfoldable pub hold : Bool → List ℕ → List ℕ → ℕ → World → World
hold is_writer dir jname idx w =
    let msg = w.comm idx in
    record w {
      comm = put_at w.comm idx (record msg {
        status = comm_holding;
        key = record (msg.key) { folder = dir; name = jname };
        is_writer = is_writer;
      });
    }

-- `rsp.success = idx >= 0`
claim : Bool → List ℕ → List ℕ → ℕ → Run World ℕ
unfolding hold
claim is_writer dir jname idx w =
    if ltb idx (2 ^ 31)
    then (if (w.comm idx).status == comm_occupied
        then (ok idx, hold is_writer dir jname idx w)
        else (fault buffer_not_allocated, w))
    else (fault cannot_register_journal, w)

module _ (os : Os) (client_name : List ℕ) (is_writer : Bool) where
  -- The client maps the file with the blocks, and locks it in memory.
  map_comm_file : ℕ → Run World ℕ
  map_comm_file h w = (do load_page_buffer os w.engine.comm_file comm_size true false; pure h) w

  -- PageProvider::register_client for the process `pid`
  unfoldable pub register_client : ℕ → Run World ℕ
  unfolding map_comm_file
  register_client pid = do
    hash_code ← reg_client os client_name pid is_writer
    elim hash_code [ none ↦ raise cannot_register_client | some h ↦ map_comm_file h ]

  -- PageProvider::register_journal
  unfoldable pub register_journal : List ℕ → List ℕ → Run World ℕ
  unfolding claim
  register_journal dir jname = do idx ← reg_journal client_name; claim is_writer dir jname idx

  -- The request of getPage, and the status that ends the wait.
  unfoldable pub request : ℕ → ℕ → Run World ℕ
  request idx page_num = do
    λ w. (ok tt, post idx page_num w)
    comm_round os idx
    λ w. (ok (w.comm idx).status, w)

  -- The provider of a client that was registered with `hash_code`.
  unfoldable pub client_provider : ℕ → Provider
  client_provider hash_code = record {
    is_writer = is_writer;
    quick_mode = true;
    request = request;
    register_journal = register_journal;
    exit_client = exit_client os client_name hash_code true;
  }
