-- ===== src/Engine/Rounds.antt =====
-- The thread of include/yijinjing/paged/PageEngine.cpp that goes round the blocks answers them all.
use native.Mathlib.Nat.{mod-eq_of_lt, mod-eq-sub-mod}
use yijinjing_lite.Prelude.{
  ℕ, zero, suc, ◌+◌, ◌-◌, ◌%◌, ◌<◌, ◌≤◌, ◌≡◌, ◌≢◌, refl, sym, ap, subst, ◌∙◌, true, Bool-cases, inl,
  inr, arith, ltb, ◌==◌, if◌then◌else◌,
}
use yijinjing_lite.Comm.{PageCommMsg, comm_requesting}
use yijinjing_lite.Engine.Service.{serve, release_last, answer, comm_round, next_idx}
use yijinjing_lite.Engine.Pages.{initiate_page}
use yijinjing_lite.Engine.Answers.{IsAnswer, release_last-Quiet, initiate_page-Quiet}
use yijinjing_lite.World.Effect.{Run, Result, ok, pure, ◌>>◌, bind_returns}
use yijinjing_lite.World.{Os, World, put_at, put_at_self, put_at_ne}
use yijinjing_lite.World.New.{Healthy}
use yijinjing_lite.World.Quiet.{Quiet}

-- A round over block `idx` has returned: the block is not waiting, and the others are as before.
pub record IsServed (os : Os) (idx : ℕ) (w : World) : Type 0 where
  pub after : World
  pub result : comm_round os idx w ≡ (ok tt, after)
  pub served : IsAnswer (after.comm idx).status
  pub others : (j : ℕ) → idx ≢ j → after.comm j ≡ w.comm j
  pub max_idx : after.engine.max_idx ≡ w.engine.max_idx

-- The loop of PageEngine::start_comm, `n` times.
unfoldable pub comm_rounds : Os → ℕ → ℕ → Run World ℕ
comm_rounds os zero idx = pure idx
comm_rounds os (suc n) idx = do comm_round os idx; λ v. comm_rounds os n (next_idx os v idx) v

module _ (os : Os) (healthy : Healthy os) where
  -- A call that has returned, as an equation.
  returns :
      {A : Type 0} {P : A → Type 0} {w : World} {r : Result A × World} (q : Quiet P w r)
      → r ≡ (ok q.value, r.1)
  returns {r} q = ap (λ x. (x, r.1)) q.returned

  serve-IsServed :
      (idx : ℕ) (w : World) → ((w.comm idx).status == comm_requesting) ≡ true → IsServed os idx w
  unfolding comm_round serve answer
  serve-IsServed idx w waiting =
      let msg = w.comm idx in
      let released = release_last-Quiet os healthy msg w in
      let u = (release_last os msg w).1 in
      let asked = initiate_page-Quiet os healthy msg.key msg.is_writer u in
      let v = (initiate_page os msg.key msg.is_writer u).1 in
      let answered = record msg { status = asked.value; last_page_num = msg.page_num } in
      record {
        after = record v { comm = put_at v.comm idx answered };
        result = rw waiting (
            bind_returns (release_last os msg) _ w u released.value (returns released)
            ∙ bind_returns (initiate_page os msg.key msg.is_writer) (answer os idx msg) u v
                asked.value (returns asked));
        served = rw (put_at_self v.comm idx answered) asked.holds;
        others = λ j ne.
            put_at_ne v.comm idx j answered ne
            ∙ ap (λ (c : ℕ → PageCommMsg). c j) (asked.comm ∙ released.comm);
        max_idx = asked.max_idx ∙ released.max_idx;
      }

  pub comm_round-IsServed : (idx : ℕ) (w : World) → IsServed os idx w
  unfolding comm_round
  comm_round-IsServed idx w = elim (Bool-cases ((w.comm idx).status == comm_requesting)) [
    | inl waiting ↦ serve-IsServed idx w waiting
    | inr idle ↦ record {
      after = w;
      result = rw (idle, comm_round) refl;
      served = λ e. absurd (ground (arith, idle, e));
      others = λ j ne. refl;
      max_idx = refl;
    }
  ]

-- The rounds from block `idx` on to block `b`, of blocks 0 to `last`.
abbrev distance : ℕ → ℕ → ℕ → ℕ
distance last idx b = if ltb b idx then b + suc last - idx else b - idx

next_in_range : (last idx : ℕ) → idx ≤ last → (idx + 1) % (last + 1) ≤ last
next_in_range last idx h = grind arith

distance_falls :
    (last idx b : ℕ)
    → idx ≤ last
    → b ≤ last
    → idx ≢ b
    → suc (distance last ((idx + 1) % (last + 1)) b) ≡ distance last idx b
distance_falls last idx b h k ne = elim (Bool-cases (ltb idx last)) [
  | inl more ↦ rw (mod-eq_of_lt {n = idx + 1} {m = last + 1} (ground (arith, more))) (ground arith)
  | inr full ↦
      let same : idx ≡ last = ground (arith, full) in
      let none_left : (idx + 1) % (last + 1) ≡ 0 =
        mod-eq-sub-mod {n = idx + 1} {m = last + 1} (omega (arith, same))
        ∙ ap (λ (k : ℕ). k % (last + 1)) {y = 0} (omega (arith, same))
        ∙ mod-eq_of_lt {n = 0} {m = last + 1} (omega arith) in
      rw none_left (ground (arith, full))
]

module _ (os : Os) (healthy : Healthy os) (last b : ℕ) (in_range : b ≤ last) where
  -- `n` rounds from `idx` on have returned, and the block is answered.
  abbrev Answered : ℕ → ℕ → World → Type 0
  Answered n idx w =
      (i : ℕ) × (v : World) × (comm_rounds os n idx w ≡ (ok i, v)) × IsAnswer (v.comm b).status

  proceed :
      (n idx : ℕ) (w : World) (r : IsServed os idx w)
      → Answered n (next_idx os r.after idx) r.after
      → Answered (suc n) idx w
  unfolding comm_rounds
  proceed n idx w r (i, v, runs, done) =
      (i, v, bind_returns (comm_round os idx) _ w r.after tt r.result ∙ runs, done)

  next_is :
      (idx : ℕ) (v : World) → v.engine.max_idx ≡ last → next_idx os v idx ≡ (idx + 1) % (last + 1)
  unfolding next_idx
  next_is idx v e = ap (λ (k : ℕ). (idx + 1) % (k + 1)) e

  -- Once answered, the block stays so.
  Answered-stays : (n idx : ℕ) (w : World) → IsAnswer (w.comm b).status → Answered n idx w
  unfolding comm_rounds
  Answered-stays zero idx w h = (idx, w, refl, h)
  Answered-stays (suc n) idx w h =
      let r = comm_round-IsServed os healthy idx w in
      proceed n idx w r (Answered-stays n (next_idx os r.after idx) r.after (kept idx r))
    where
      kept : (idx : ℕ) (r : IsServed os idx w) → IsAnswer (r.after.comm b).status
      kept idx r = elim (Bool-cases (idx == b)) [
        | inl e ↦
            subst (λ (k : ℕ). IsAnswer (r.after.comm k).status) {x = idx} (ground (arith, e))
              r.served
        | inr e ↦ rw (r.others b (ground (arith, e))) h
      ]

  pub comm_rounds-Answered :
      (n idx : ℕ) (w : World)
      → w.engine.max_idx ≡ last
      → idx ≤ last
      → distance last idx b < n
      → Answered n idx w
  comm_rounds-Answered zero idx w m h lt = absurd (omega arith)
  comm_rounds-Answered (suc n) idx w m h lt =
      let r = comm_round-IsServed os healthy idx w in
      elim (Bool-cases (idx == b)) [
        | inl e ↦ proceed n idx w r (
            Answered-stays n (next_idx os r.after idx) r.after (
              subst (λ (k : ℕ). IsAnswer (r.after.comm k).status) {x = idx} (ground (arith, e))
                r.served))
        | inr e ↦
            let falls = distance_falls last idx b h in_range (ground (arith, e)) in
            proceed n idx w r (
              subst (λ (k : ℕ). Answered n k r.after) (sym (next_is idx r.after (r.max_idx ∙ m)))
                (comm_rounds-Answered n ((idx + 1) % (last + 1)) r.after (r.max_idx ∙ m)
                  (next_in_range last idx h) (omega (arith, falls))))
      ]

-- If the system calls succeed, as many rounds of the engine's thread as there are blocks in its
-- range, from any block `idx` of the range on, all return, and leave no block `b` of the range
-- waiting for an answer.
pub comm_rounds-answers :
    (os : Os) (w : World) (b idx : ℕ)
    → Healthy os
    → b ≤ w.engine.max_idx
    → idx ≤ w.engine.max_idx
    → (i : ℕ) × (v : World) × (comm_rounds os (w.engine.max_idx + 1) idx w ≡ (ok i, v))
      × ((v.comm b).status ≢ comm_requesting)
comm_rounds-answers os w b idx healthy h k =
    comm_rounds-Answered os healthy w.engine.max_idx b h (w.engine.max_idx + 1) idx w refl k
      (ground arith)
