-- ===== src/Tests/Rounds.antt =====
-- Rounds of the engine, its full table of blocks, and the listing of a folder.
use mathlib.Core.List.{Perm}
use yijinjing_lite.Prelude.{
  ℕ, ◌≡◌, ◌≢◌, refl, true, inl, inr, [], ◌∷◌, codes, arith, not, bytes_eq, ltb, if◌then◌else◌,
}
use yijinjing_lite.Comm.{comm_requesting, comm_raw, comm_occupied}
use yijinjing_lite.Map.{find, bytes_key}
use yijinjing_lite.FileName.{gen_page_file_name}
use yijinjing_lite.Directory.{get_page_nums}
use yijinjing_lite.Directory.Sorted.{IsSorted, get_page_nums-perm}
use yijinjing_lite.Engine.Clients.{minus_one, reg_journal}
use yijinjing_lite.Engine.Rounds.{comm_rounds, comm_rounds-answers}
use yijinjing_lite.Engine.Unknown.{reg_again, free_total, free_count, reg_again-full}
use yijinjing_lite.World.Effect.{ok}
use yijinjing_lite.World.{Os, World}
use yijinjing_lite.Tests.Fixtures.{os, os-Healthy, new_engine, raw_block, empty_disk}
use yijinjing_lite.Tests.Clients.{page_key}

-- Every block waits, and the rounds go over three of them.
abbrev waiting : World
waiting = record empty_disk {
  comm =
      λ i. record { status = comm_requesting; key = page_key; is_writer = true; last_page_num = 0 };
  engine = record new_engine { max_idx = 2 };
}

comm_rounds-answers_example :
    (i : ℕ) × (v : World) × (comm_rounds os 3 2 waiting ≡ (ok i, v))
    × ((v.comm 1).status ≢ comm_requesting)
comm_rounds-answers_example =
    comm_rounds-answers os waiting 1 2 os-Healthy (omega arith) (omega arith)

-- Two blocks are free, and no client has registered.
abbrev two_free : World
two_free = record empty_disk {
  comm = λ i. record raw_block { status = if ltb i 2 then comm_raw else comm_occupied };
}

two_free_total : free_total two_free ≡ 2
unfolding free_count
two_free_total = refl

reg_again-full_example :
    (v : World) × (reg_again 2 (codes "a") two_free ≡ (ok tt, v))
    × (v.engine.client_journals ≡ two_free.engine.client_journals)
    × (reg_journal (codes "b") v ≡ (ok minus_one, v))
unfolding find
reg_again-full_example =
    reg_again-full 2 (codes "a") (codes "b") two_free refl (omega (arith, two_free_total))

abbrev folder : Os
folder = record os {
  list_folder = λ files p.
      gen_page_file_name (codes "j") 2 ∷ codes "notes" ∷ gen_page_file_name (codes "j") 1 ∷ [];
  regex_match = λ name pattern. not (bytes_eq name (codes "notes"));
}

get_page_nums-perm_example :
    Perm (2 ∷ 1 ∷ []) (get_page_nums folder (codes "d") (codes "j") empty_disk)
    × IsSorted (get_page_nums folder (codes "d") (codes "j") empty_disk)
unfolding gen_page_file_name bytes_eq
get_page_nums-perm_example =
    get_page_nums-perm folder (codes "d") (codes "j") empty_disk
      (inl 2 ∷ inr (codes "notes") ∷ inl 1 ∷ []) refl
      ((refl, omega arith), (refl, ((refl, omega arith), tt)))
