-- ===== src/Engine/Blocks.antt =====
-- The blocks of the communication file: who has one, and what a round over one answers.
use yijinjing_lite.Prelude.{
  ℕ, zero, suc, ◌+◌, ◌<◌, ◌≤◌, ◌≡◌, ◌≢◌, sym, subst, bytes_eq_iff, inl, inr, Bool, true, false,
  Bool-cases, List, [], ◌∷◌, none, some, All, arith, ◌==◌,
}
use yijinjing_lite.Comm.{FileKey, PageCommMsg, comm_raw, comm_occupied, max_comm_user_number}
use yijinjing_lite.Map.{find, bytes_key}
use yijinjing_lite.Map.Laws.{find-erase}
use yijinjing_lite.Engine.State.{PageClientInfo}
use yijinjing_lite.Engine.Clients.{
  first_raw, reg_journal, free_block, free_blocks, leave, forget, exit_client,
}
use yijinjing_lite.Engine.Pages.{release_page, settle, drop_buffer}
use yijinjing_lite.World.Effect.{ok, bind_keeps, bind-ok}
use yijinjing_lite.World.{Os, World, release_page_buffer}

-- The search goes through the blocks in order: the block is free, and the ones before it are not.
pub record IsFirstRaw (comm : ℕ → PageCommMsg) (n idx i : ℕ) : Type 0 where
  pub in_range : (idx ≤ i) × (i < idx + n)
  pub is_raw : (comm i).status ≡ comm_raw
  pub is_first : (k : ℕ) → idx ≤ k → k < i → (comm k).status ≢ comm_raw

later :
    (comm : ℕ → PageCommMsg) (idx i : ℕ)
    → ((comm idx).status == comm_raw) ≡ false
    → ((k : ℕ) → idx + 1 ≤ k → k < i → (comm k).status ≢ comm_raw)
    → (k : ℕ) → idx ≤ k
    → k < i
    → (comm k).status ≢ comm_raw
later comm idx i b rest k lo hi = elim (Bool-cases (idx == k)) [
  | inl e ↦
      subst (λ (j : ℕ). (comm j).status ≢ comm_raw) {x = idx} (ground (arith, e))
        (λ x. ground (arith, b, x))
  | inr e ↦ rest k (ground (arith, e)) hi
]

first_raw-IsFirstRaw :
    (comm : ℕ → PageCommMsg) (n idx i : ℕ) → first_raw comm n idx ≡ some i → IsFirstRaw comm n idx i
unfolding first_raw
first_raw-IsFirstRaw comm zero idx i e = ground (arith, e)
first_raw-IsFirstRaw comm (suc n) idx i e = elim (Bool-cases ((comm idx).status == comm_raw)) [
  | inl b ↦
      let same : idx ≡ i = ground (arith, b, e) in
      record {
        in_range = (omega (arith, same), omega (arith, same));
        is_raw = ground (arith, b, same);
        is_first = λ k lo hi. absurd (omega (arith, same));
      }
  | inr b ↦
      let found : first_raw comm n (idx + 1) ≡ some i = ground (arith, b, e) in
      let rest = first_raw-IsFirstRaw comm n (idx + 1) i found in
      record {
        in_range = (omega (arith, rest.in_range), omega (arith, rest.in_range));
        is_raw = rest.is_raw;
        is_first = later comm idx i b rest.is_first;
      }
]

-- If a block is free, a registered client is given the first free one: the block is marked as
-- occupied, any other block `k` stays, and the rounds of the engine reach it.
pub reg_journal-takes :
    (name : List ℕ) (i k : ℕ) (info : PageClientInfo) (w : World)
    → first_raw w.comm max_comm_user_number 0 ≡ some i
    → find w.engine.client_journals name ≡ some info
    → i ≢ k
    → ((reg_journal name w).0 ≡ ok i)
      × IsFirstRaw w.comm max_comm_user_number 0 i
      × (((reg_journal name w).1.comm i).status ≡ comm_occupied)
      × ((reg_journal name w).1.comm k ≡ w.comm k)
      × (i ≤ (reg_journal name w).1.engine.max_idx)
unfolding reg_journal
reg_journal-takes name i k info w e f ne = (
  ground (arith, e, f),
  first_raw-IsFirstRaw w.comm max_comm_user_number 0 i e,
  ground (arith, e, f),
  ground (arith, e, f, ne),
  ground (arith, e, f),
)

module _ (os : Os) where
  comm-release_page : (k : FileKey) (b : Bool) (w : World) → (release_page os k b w).1.comm ≡ w.comm
  unfolding release_page settle drop_buffer release_page_buffer
  comm-release_page k b w = ground arith

  -- The blocks that are free stay free.
  abbrev StaysRaw : World → World → Type 0
  StaysRaw v w = (i : ℕ) → (v.comm i).status ≡ comm_raw → (w.comm i).status ≡ comm_raw

  free_block-StaysRaw : (i : ℕ) (w : World) → StaysRaw w (free_block os i w).1
  unfolding free_block
  free_block-StaysRaw i w j h =
      ground (arith, h, comm-release_page (w.comm i).key (w.comm i).is_writer w)

  free_block-frees :
      (i : ℕ) (w : World)
      → (free_block os i w).0 ≡ ok tt
      → ((free_block os i w).1.comm i).status ≡ comm_raw
  unfolding free_block
  free_block-frees i w h = ground (arith, h)

  free_blocks-StaysRaw : (is : List ℕ) (w : World) → StaysRaw w (free_blocks os is w).1
  unfolding free_blocks
  free_blocks-StaysRaw [] w = λ j h. h
  free_blocks-StaysRaw (i ∷ is) w =
      bind_keeps StaysRaw (λ u v x f g j h. g j (f j h)) (free_block os i) _ w
        (free_block-StaysRaw i w) (λ t e. free_blocks-StaysRaw is _)

  abbrev pub AllRaw : List ℕ → World → Type 0
  AllRaw is w = All (λ i. (w.comm i).status ≡ comm_raw) is

  free_blocks-frees :
      (is : List ℕ) (w : World)
      → (free_blocks os is w).0 ≡ ok tt
      → AllRaw is (free_blocks os is w).1
  unfolding free_blocks
  free_blocks-frees [] w h = tt
  free_blocks-frees (i ∷ is) w h =
      let (t, e, g, same) = bind-ok (free_block os i) (λ u. free_blocks os is) w tt h in
      subst (AllRaw (i ∷ is)) (sym same) (
        free_blocks-StaysRaw is (free_block os i w).1 i (free_block-frees i w e),
        free_blocks-frees is (free_block os i w).1 g,
      )

  abbrev pub Forgotten : List ℕ → List ℕ → World → Type 0
  Forgotten name is w = (find w.engine.client_journals name ≡ none) × AllRaw is w

  forget-Forgotten :
      (name : List ℕ) (info : PageClientInfo) (w : World)
      → AllRaw info.user_index_vec w
      → Forgotten name info.user_index_vec (forget os name info w).1
  unfolding forget
  forget-Forgotten name info w h =
      (ground (arith, find-erase w.engine.client_journals name name, bytes_eq_iff name name), h)

  leave-Forgotten :
      (name : List ℕ) (info : PageClientInfo) (w : World)
      → (leave os name info w).0 ≡ ok tt
      → Forgotten name info.user_index_vec (leave os name info w).1
  unfolding leave
  leave-Forgotten name info w h =
      let (t, e, g, same) =
        bind-ok (free_blocks os info.user_index_vec) (λ u. forget os name info) w tt h in
      subst (Forgotten name info.user_index_vec) (sym same) (
        forget-Forgotten name info (free_blocks os info.user_index_vec w).1
          (free_blocks-frees info.user_index_vec w e))

  exit_client-leave :
      (name : List ℕ) (info : PageClientInfo) (w : World)
      → find w.engine.client_journals name ≡ some info
      → exit_client os name info.hash_code true w ≡ leave os name info w
  unfolding exit_client
  exit_client-leave name info w e = rw (e, exit_client) (ground arith)

  -- If a client leaves with its hash code and the call returns, the client is forgotten and
  -- all its blocks are free.
  pub exit_client-frees :
      (name : List ℕ) (info : PageClientInfo) (w : World)
      → find w.engine.client_journals name ≡ some info
      → (exit_client os name info.hash_code true w).0 ≡ ok tt
      → Forgotten name info.user_index_vec (exit_client os name info.hash_code true w).1
  exit_client-frees name info w e h =
      rw (exit_client-leave name info w e)
        (leave-Forgotten name info w (rw (exit_client-leave name info w e) at h))
