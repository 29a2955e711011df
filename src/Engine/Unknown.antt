-- ===== src/Engine/Unknown.antt =====
-- `reg_journal` of include/yijinjing/paged/PageEngine.cpp for a client that is not registered.
use yijinjing_lite.Prelude.{
  ℕ, zero, suc, ◌+◌, ◌-◌, ◌≤◌, ◌<◌, ◌≡◌, ◌≢◌, refl, sym, ap, subst, ◌∙◌, Bool-cases, Option-cases,
  inl, inr, List, some, none, arith, ◌==◌, if◌then◌else◌,
}
use yijinjing_lite.Comm.{PageCommMsg, comm_raw, comm_occupied, max_comm_user_number}
use yijinjing_lite.Map.{find, bytes_key}
use yijinjing_lite.Engine.Clients.{minus_one, first_raw, reg_journal}
use yijinjing_lite.World.Effect.{Run, ok, pure, ◌>>◌, bind_returns}
use yijinjing_lite.World.{World, put_at, put_at_self, put_at_ne}

-- The free blocks among the `n` from `idx` on.
unfoldable pub free_count : (ℕ → PageCommMsg) → ℕ → ℕ → ℕ
free_count comm zero idx = 0
free_count comm (suc n) idx =
    (if (comm idx).status == comm_raw then 1 else 0) + free_count comm n (idx + 1)

-- A block in front of the range does not count.
free_count-put :
    (comm : ℕ → PageCommMsg) (n idx i : ℕ) (msg : PageCommMsg)
    → i < idx
    → free_count (put_at comm i msg) n idx ≡ free_count comm n idx
unfolding free_count
free_count-put comm zero idx i msg h = refl
free_count-put comm (suc n) idx i msg h =
    let same = put_at_ne comm i idx msg (omega arith) in
    ground (arith, same, free_count-put comm n (idx + 1) i msg)

-- Taking the first free block leaves one free block less.
free_count-first :
    (comm : ℕ → PageCommMsg) (n idx i : ℕ) (msg : PageCommMsg)
    → first_raw comm n idx ≡ some i
    → msg.status ≢ comm_raw
    → (idx ≤ i) × (suc (free_count (put_at comm i msg) n idx) ≡ free_count comm n idx)
unfolding first_raw free_count
free_count-first comm zero idx i msg h ne = absurd (ground (arith, h))
free_count-first comm (suc n) idx i msg h ne = elim (Bool-cases ((comm idx).status == comm_raw)) [
  | inl raw ↦
      let here : idx ≡ i = ground (arith, h, raw) in
      let taken = put_at_self comm i msg in
      let rest = free_count-put comm n (idx + 1) i msg (omega (arith, here)) in
      (omega (arith, here), ground (arith, here, taken, rest, raw))
  | inr other ↦
      let later = free_count-first comm n (idx + 1) i msg (ground (arith, h, other)) ne in
      let apart = put_at_ne comm i idx msg (omega (arith, later.0)) in
      (omega (arith, later.0), ground (arith, apart, other, later.1))
]

first_raw-full :
    (comm : ℕ → PageCommMsg) (n idx : ℕ) → first_raw comm n idx ≡ none → free_count comm n idx ≡ 0
unfolding first_raw free_count
first_raw-full comm zero idx h = refl
first_raw-full comm (suc n) idx h = elim (Bool-cases ((comm idx).status == comm_raw)) [
  | inl raw ↦ absurd (ground (arith, h, raw))
  | inr other ↦ ground (arith, other, first_raw-full comm n (idx + 1) (ground (arith, h, other)))
]

-- The free blocks of the communication file.
abbrev pub free_total : World → ℕ
free_total w = free_count w.comm max_comm_user_number 0

first_raw-none :
    (comm : ℕ → PageCommMsg) (n idx : ℕ) → free_count comm n idx ≡ 0 → first_raw comm n idx ≡ none
unfolding first_raw free_count
first_raw-none comm zero idx h = refl
first_raw-none comm (suc n) idx h = ground (arith, first_raw-none comm n (idx + 1))

-- Calls of reg_journal under one name.
unfoldable pub reg_again : ℕ → List ℕ → Run World Unit
reg_again zero name = pure tt
reg_again (suc n) name = reg_journal name >> reg_again n name

-- One call: it fails, and the block that it has taken stays taken.
pub record Lost (name : List ℕ) (w : World) : Type 0 where
  pub after : World
  pub result : reg_journal name w ≡ (ok minus_one, after)
  pub clients : after.engine.client_journals ≡ w.engine.client_journals
  pub free : free_total after ≡ free_total w - 1

reg_journal-Lost :
    (name : List ℕ) (w : World) → find w.engine.client_journals name ≡ none → Lost name w
unfolding reg_journal
reg_journal-Lost name w unknown = elim (Option-cases (first_raw w.comm max_comm_user_number 0)) [
  | inl full ↦
      let all_taken = first_raw-full w.comm max_comm_user_number 0 full in
      record {
        after = w;
        result = ground (arith, full);
        clients = refl;
        free = omega (arith, all_taken);
      }
  | inr (i, first) ↦
      let msg = record (w.comm i) { status = comm_occupied; last_page_num = 0 } in
      let less =
        free_count-first w.comm max_comm_user_number 0 i msg first (λ e. omega (arith, e)) in
      let taken : (reg_journal name w).1.comm ≡ put_at w.comm i msg =
        ground (arith, first, unknown) in
      record {
        after = (reg_journal name w).1;
        result = ap (λ r. (r, (reg_journal name w).1)) (ground (arith, first, unknown));
        clients = ground (arith, first, unknown);
        free = omega (arith, less.1, ap (λ c. free_count c max_comm_user_number 0) taken);
      }
]

refused : (name : List ℕ) (w : World) → free_total w ≡ 0 → reg_journal name w ≡ (ok minus_one, w)
unfolding reg_journal
refused name w full = ground (arith, first_raw-none w.comm max_comm_user_number 0 full)

-- If a client that is not registered calls `reg_journal` at least as often as there are free
-- blocks, then every call returns, and the registered clients are as before, with the lists of
-- their blocks. The next `reg_journal` fails with -1 and changes nothing, whatever client it is
-- for.
pub reg_again-full :
    (n : ℕ) (name other : List ℕ) (w : World)
    → find w.engine.client_journals name ≡ none
    → free_total w ≤ n
    → (v : World) × (reg_again n name w ≡ (ok tt, v))
      × (v.engine.client_journals ≡ w.engine.client_journals)
      × (reg_journal other v ≡ (ok minus_one, v))
unfolding reg_again
reg_again-full zero name other w unknown few = (w, refl, refl, refused other w (omega (arith, few)))
reg_again-full (suc n) name other w unknown few =
    let one = reg_journal-Lost name w unknown in
    let (v, run, clients, full) =
      reg_again-full n name other one.after
        (subst (λ m. find m name ≡ none) (sym one.clients) unknown)
        (omega (arith, few, one.free)) in
    (
      v,
      bind_returns (reg_journal name) _ w one.after minus_one one.result ∙ run,
      clients ∙ one.clients,
      full,
    )
