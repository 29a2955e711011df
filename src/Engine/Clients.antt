-- ===== src/Engine/Clients.antt =====
-- include/yijinjing/paged/PageEngine.cpp: registering clients and their journals, and their exit.
use yijinjing_lite.Prelude.{
  ℕ, zero, suc, ◌+◌, ◌-◌, ◌^◌, Bool, true, false, not, ◌&&◌, List, [], ◌∷◌, ◌++◌, Option, none,
  some, bytes_eq, ltb, ◌==◌, if◌then◌else◌,
}
use yijinjing_lite.Constants.{hash_seed}
use yijinjing_lite.Hash.{murmur_hash2}
use yijinjing_lite.Map.{find, insert, erase, bytes_key, nat_key}
use yijinjing_lite.Comm.{PageCommMsg, comm_raw, comm_occupied, comm_allocated, max_comm_user_number}
use yijinjing_lite.Engine.State.{PageClientInfo}
use yijinjing_lite.Engine.Pages.{set_engine, release_page}
use yijinjing_lite.FileName.Decimal.{print_signed}
use yijinjing_lite.World.Effect.{Run, ok, pure, ◌>>=◌, ◌>>◌}
use yijinjing_lite.World.{Os, World, put_at}

-- -1 as an `int`
abbrev pub minus_one : ℕ
minus_one = 2 ^ 32 - 1

abbrev pub set_status : ℕ → ℕ → World → World
set_status idx status w = record w {
  comm = put_at w.comm idx (record (w.comm idx) { status = status });
}

-- The first free block among the `n` from `idx` on.
unfoldable pub first_raw : (ℕ → PageCommMsg) → ℕ → ℕ → Option ℕ
first_raw comm zero idx = none
first_raw comm (suc n) idx =
    let rest = first_raw comm n (idx + 1) in
    if (comm idx).status == comm_raw then some idx else rest

max : ℕ → ℕ → ℕ
max a b = if ltb a b then b else a

occupy : ℕ → World → World
occupy idx w = record w {
  comm = put_at w.comm idx (record (w.comm idx) { status = comm_occupied; last_page_num = 0 });
  engine = record w.engine { max_idx = max w.engine.max_idx idx };
}

-- The block is taken before the client is looked for.
assign : List ℕ → ℕ → Run World ℕ
unfolding occupy max
assign client_name idx w =
    let v = occupy idx w in
    elim (find v.engine.client_journals client_name) [
      | none ↦ (ok minus_one, v)
      | some info ↦
          let info' = record info { user_index_vec = info.user_index_vec ++ (idx ∷ []) } in
          (
            ok idx,
            set_engine v (record v.engine {
              client_journals = insert v.engine.client_journals client_name info';
            }),
          )
    ]

-- PageEngine::reg_journal
unfoldable pub reg_journal : List ℕ → Run World ℕ
unfolding assign
reg_journal client_name w = elim (first_raw w.comm max_comm_user_number 0) [
  | none ↦ (ok minus_one, w)
  | some idx ↦ assign client_name idx w
]

-- `clients` of a process, with one more.
unfoldable pub add_name : Option (List (List ℕ)) → List ℕ → List (List ℕ)
add_name none name = name ∷ []
add_name (some names) name = names ++ (name ∷ [])

-- erase(remove(...)): all entries with that name.
unfoldable pub without_name : List ℕ → List (List ℕ) → List (List ℕ)
without_name name [] = []
without_name name (n ∷ ns) =
    let rest = without_name name ns in if bytes_eq n name then rest else n ∷ rest

unfoldable pub names_of : Option (List (List ℕ)) → List (List ℕ)
names_of none = []
names_of (some names) = names

unfoldable pub is_empty : List (List ℕ) → Bool
is_empty [] = true
is_empty (n ∷ ns) = false

module _ (os : Os) where
  new_client : List ℕ → ℕ → Bool → Run World ℕ
  unfolding add_name
  new_client client_name pid is_writer w =
      let e = w.engine in
      let names = add_name (find e.pid_client pid) client_name in
      let text =
        client_name
        ++ (print_signed (2 ^ 63) 20 (os.clock w.readings) ++ print_signed (2 ^ 31) 10 pid) in
      let hash_code = murmur_hash2 text hash_seed in
      let info : PageClientInfo = record {
        user_index_vec = [];
        reg_nano = os.clock (w.readings + 1);
        pid = pid;
        hash_code = hash_code;
        is_writing = is_writer;
        is_strategy = false;
        rid_start = minus_one;
        rid_end = minus_one;
        trade_engine_vec = [];
      } in
      (
        ok hash_code,
        record w {
          readings = w.readings + 2;
          engine = record e {
            pid_client = insert e.pid_client pid names;
            client_journals = insert e.client_journals client_name info;
          };
        },
      )

  -- PageEngine::reg_client: the hash code of the new client, `none` if the name is taken.
  unfoldable pub reg_client : List ℕ → ℕ → Bool → Run World (Option ℕ)
  unfolding new_client
  reg_client client_name pid is_writer w = elim (find w.engine.client_journals client_name) [
    | some info ↦ (ok none, w)
    | none ↦ (do h ← new_client client_name pid is_writer; pure (some h)) w
  ]

  unfoldable pub free_block : ℕ → Run World Unit
  free_block idx w =
      let msg = w.comm idx in
      (do
        (λ v.
            if msg.status == comm_allocated
            then release_page os msg.key msg.is_writer v
            else (ok tt, v))
        λ v. (ok tt, set_status idx comm_raw v))
        w

  unfoldable pub free_blocks : List ℕ → Run World Unit
  free_blocks [] w = (ok tt, w)
  free_blocks (idx ∷ rest) w = (do free_block idx; free_blocks rest) w

  unfoldable pub forget : List ℕ → PageClientInfo → Run World Unit
  unfolding names_of is_empty
  forget client_name info w =
      let e = w.engine in
      let names = without_name client_name (names_of (find e.pid_client info.pid)) in
      (
        ok tt,
        record w {
          readings = w.readings + 1;
          engine = record e {
            pid_client =
                (if is_empty names
                  then erase e.pid_client info.pid
                  else insert e.pid_client info.pid names);
            client_journals = erase e.client_journals client_name;
          };
        },
      )

  unfoldable pub leave : List ℕ → PageClientInfo → Run World Unit
  leave client_name info w = (do free_blocks info.user_index_vec; forget client_name info) w

  -- PageEngine::exit_client
  unfoldable pub exit_client : List ℕ → ℕ → Bool → Run World Unit
  exit_client client_name hash_code need_hash_check w =
      elim (find w.engine.client_journals client_name) [
        | none ↦ (ok tt, w)
        | some info ↦
            if need_hash_check && not (hash_code == info.hash_code)
            then (ok tt, w)
            else leave client_name info w
      ]
