-- ===== src/Engine/Answers.antt =====
-- The parts of a round over a block return, and leave the other blocks alone.
use yijinjing_lite.Prelude.{
  ◌∙◌, ℕ, ◌≡◌, ◌≢◌, refl, Bool, true, false, not, Option, none, some, Option-cases, inl, inr, arith,
  ◌==◌, if◌then◌else◌,
}
use yijinjing_lite.Constants.{journal_page_size}
use yijinjing_lite.Map.{find, erase, bytes_key}
use yijinjing_lite.Comm.{
  FileKey, PageCommMsg, comm_requesting, comm_non_exist, comm_cannot_rename_from_temp,
  comm_allocated, comm_more_than_one_write,
}
use yijinjing_lite.Engine.State.{file_key}
use yijinjing_lite.Engine.Pages.{
  path_of, set_engine, counts, set_counts, decrement, is_none, count_user, unmap, drop_buffer,
  settle, release_page, use_temp_page, load_if_null, new_file, add_buffer, map_page, initiate_page,
}
use yijinjing_lite.Engine.Service.{release_last}
use yijinjing_lite.World.Effect.{Run, Result, ok, pure}
use yijinjing_lite.World.{Os, World, FilePath, load_page_buffer, file_exists}
use yijinjing_lite.World.New.{Healthy}
use yijinjing_lite.World.Quiet.{
  Quiet, Any, Quiet-bind, Quiet-if, release_page_buffer-Quiet, load_page_buffer-Quiet,
}

-- A status that answers a request.
abbrev pub IsAnswer : ℕ → Type 0
IsAnswer status = status ≢ comm_requesting

abbrev IsRefusal : Option ℕ → Type 0
IsRefusal none = Unit {0}
IsRefusal (some status) = IsAnswer status

module _ {A : Type 0} where
  -- A value at once, with the blocks and their range as they are.
  at_once :
      (P : A → Type 0) (a : A) (w v : World)
      → P a
      → v.comm ≡ w.comm
      → v.engine.max_idx ≡ w.engine.max_idx
      → Quiet P w (ok a, v)
  at_once P a w v p c m = record { value = a; returned = refl; holds = p; comm = c; max_idx = m }

  from :
      {P : A → Type 0} (w v : World) {r : Result A × World}
      → Quiet P v r
      → v.comm ≡ w.comm
      → v.engine.max_idx ≡ w.engine.max_idx
      → Quiet P w r
  from w v q c m = record {
    value = q.value;
    returned = q.returned;
    holds = q.holds;
    comm = q.comm ∙ c;
    max_idx = q.max_idx ∙ m;
  }

module _ (os : Os) (healthy : Healthy os) where
  unmap-Quiet : (addr : Option ℕ) (w : World) → Quiet Any w (unmap os addr w)
  unfolding unmap
  unmap-Quiet none w = at_once Any tt w w tt refl refl
  unmap-Quiet (some i) w = release_page_buffer-Quiet os healthy i w

  drop_buffer-Quiet :
      (path : FilePath) (found : Option (Option ℕ)) (w : World)
      → Quiet Any w (drop_buffer os path found w)
  unfolding drop_buffer
  drop_buffer-Quiet path none w = at_once Any tt w w tt refl refl
  drop_buffer-Quiet path (some addr) w =
      Quiet-bind Any Any (unmap os addr) _ w (unmap-Quiet addr w)
        (λ a v h. at_once Any tt v _ tt refl refl)

  settle-Quiet : (k : FileKey) (b : Bool) (n : ℕ) (w : World) → Quiet Any w (settle os k b n w)
  unfolding settle
  settle-Quiet k true n w =
      let e' = set_counts true w.engine (erase (counts true w.engine) k) in
      let w' = set_engine w e' in
      Quiet-if Any (n == 0)
        (if is_none (find (counts false e') k)
          then drop_buffer os (path_of k) (find e'.file_addrs (path_of k)) w'
          else (ok tt, w'))
        _ w
        (Quiet-if Any (is_none (find (counts false e') k)) _ _ w
          (from w w' (drop_buffer-Quiet (path_of k) (find e'.file_addrs (path_of k)) w') refl refl)
          (at_once Any tt w w' tt refl refl))
        (at_once Any tt w _ tt refl refl)
  settle-Quiet k false n w =
      let e' = set_counts false w.engine (erase (counts false w.engine) k) in
      let w' = set_engine w e' in
      Quiet-if Any (n == 0)
        (if is_none (find (counts true e') k)
          then drop_buffer os (path_of k) (find e'.file_addrs (path_of k)) w'
          else (ok tt, w'))
        _ w
        (Quiet-if Any (is_none (find (counts true e') k)) _ _ w
          (from w w' (drop_buffer-Quiet (path_of k) (find e'.file_addrs (path_of k)) w') refl refl)
          (at_once Any tt w w' tt refl refl))
        (at_once Any tt w _ tt refl refl)

  release_page-Quiet : (k : FileKey) (b : Bool) (w : World) → Quiet Any w (release_page os k b w)
  unfolding release_page
  release_page-Quiet k b w = elim (Option-cases (find (counts b w.engine) k)) [
    | inl e ↦ rw (e, release_page) (at_once Any tt w w tt refl refl)
    | inr (n, e) ↦ rw (e, release_page) (settle-Quiet k b (decrement n) w)
  ]

  pub release_last-Quiet : (msg : PageCommMsg) (w : World) → Quiet Any w (release_last os msg w)
  unfolding release_last
  release_last-Quiet msg w =
      Quiet-if Any _
        (release_page os (record (msg.key) { page_num = msg.last_page_num }) msg.is_writer w)
        (ok tt, w) w (release_page-Quiet _ msg.is_writer w) (at_once Any tt w w tt refl refl)

  use_temp_page-Quiet :
      (path temp : FilePath) (addr : Option ℕ) (w : World)
      → Quiet Any w (use_temp_page os path temp addr w)
  unfolding use_temp_page
  use_temp_page-Quiet path temp addr w =
      Quiet-if Any (os.rename_succeeds temp path) _ _ w (at_once Any (some addr) w _ tt refl refl)
        (at_once Any none w w tt refl refl)

  load_if_null-Quiet :
      (path : FilePath) (o : Option (Option ℕ)) (w : World) → Quiet Any w (load_if_null os path o w)
  unfolding load_if_null
  load_if_null-Quiet path none w = at_once Any none w w tt refl refl
  load_if_null-Quiet path (some (some i)) w = at_once Any (some (some i)) w w tt refl refl
  load_if_null-Quiet path (some none) w =
      Quiet-bind Any Any (load_page_buffer os path journal_page_size true true) _ w
        (load_page_buffer-Quiet os healthy path journal_page_size true w)
        (λ a v h. at_once Any (some a) v v tt refl refl)

  new_file-Quiet :
      (path temp : FilePath) (o : Option (Option ℕ)) (w : World)
      → Quiet Any w (new_file os path temp o w)
  unfolding new_file
  new_file-Quiet path temp none w = load_if_null-Quiet path (some none) w
  new_file-Quiet path temp (some addr) w =
      Quiet-bind Any Any (use_temp_page os path temp addr) (load_if_null os path) w
        (use_temp_page-Quiet path temp addr w) (λ a v h. load_if_null-Quiet path a v)

  -- The file is mapped at the end, or there is a status to answer with.
  keep_made :
      (path : FilePath) (made : Option (Option ℕ)) (w : World)
      → Quiet IsRefusal w (
          (elim made as (λ _. Run World (Option ℕ)) [
            | none ↦ pure (some comm_cannot_rename_from_temp)
            | some buffer ↦ λ v. (ok none, add_buffer os path buffer v)
          ])
            w)
  unfolding add_buffer
  keep_made path none w =
      at_once IsRefusal (some comm_cannot_rename_from_temp) w w (λ e. absurd (omega (arith, e)))
        refl refl
  keep_made path (some buffer) w = at_once IsRefusal none w _ tt refl refl

  map_page-Quiet :
      (k : FileKey) (is_writer : Bool) (w : World) → Quiet IsRefusal w (map_page os k is_writer w)
  unfolding map_page
  map_page-Quiet k is_writer w =
      let path = path_of k in
      let temp = w.engine.temp_page_path in
      Quiet-if IsRefusal _ _ _ w (at_once IsRefusal none w w tt refl refl) (
        Quiet-if IsRefusal (file_exists os path w) _ _ w
          (Quiet-bind Any IsRefusal (load_page_buffer os path journal_page_size false true) _ w
            (load_page_buffer-Quiet os healthy path journal_page_size false w)
            (λ a v h. at_once IsRefusal none v _ tt refl refl))
          (Quiet-if IsRefusal (not is_writer) _ _ w
            (at_once IsRefusal (some comm_non_exist) w w (λ e. absurd (omega (arith, e))) refl refl)
            (Quiet-bind Any IsRefusal (new_file os path temp (find w.engine.file_addrs temp)) _ w
              (new_file-Quiet path temp (find w.engine.file_addrs temp) w)
              (λ made v h. keep_made path made v))))

  count_user-Quiet : (k : FileKey) (b : Bool) (w : World) → Quiet IsAnswer w (count_user k b w)
  unfolding count_user
  count_user-Quiet k true w = elim (Option-cases (find w.engine.file_writer_counts k)) [
    | inl e ↦
        rw (e, count_user)
          (at_once IsAnswer comm_allocated w _ (λ h. absurd (omega (arith, h))) refl refl)
    | inr (n, e) ↦
        rw (e, count_user)
          (at_once IsAnswer comm_more_than_one_write w _ (λ h. absurd (omega (arith, h))) refl refl)
  ]
  count_user-Quiet k false w = elim (Option-cases (find w.engine.file_reader_counts k)) [
    | inl e ↦
        rw (e, count_user)
          (at_once IsAnswer comm_allocated w _ (λ h. absurd (omega (arith, h))) refl refl)
    | inr (n, e) ↦
        rw (e, count_user)
          (at_once IsAnswer comm_allocated w _ (λ h. absurd (omega (arith, h))) refl refl)
  ]

  pub initiate_page-Quiet :
      (k : FileKey) (b : Bool) (w : World) → Quiet IsAnswer w (initiate_page os k b w)
  unfolding initiate_page
  initiate_page-Quiet k b w =
      Quiet-bind IsRefusal IsAnswer (map_page os k b) _ w (map_page-Quiet k b w)
        (λ refused v h. answered refused v h)
    where
      answered :
          (refused : Option ℕ) (v : World)
          → IsRefusal refused
          → Quiet IsAnswer v (
              (elim refused as (λ _. Run World ℕ) [
                | some status ↦ pure status
                | none ↦ count_user k b
              ])
                v)
      answered none v h = count_user-Quiet k b v
      answered (some status) v h = at_once IsAnswer status v v h refl refl
