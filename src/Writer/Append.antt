-- ===== src/Writer/Append.antt =====
-- The journal as a log that a writer over the local provider only appends to.
use yijinjing_lite.Writer.Appended.{ticked, Represents-ticked, write_frame-located, Appended}
use yijinjing_lite.Prelude.{
  ◌⊎◌, ℕ, suc, ◌+◌, ◌<◌, ◌≤◌, ◌^◌, ◌≡◌, refl, sym, ap, ◌∙◌, Bool, true, List, [], ◌∷◌, ◌++◌, length,
  map, All, arith, ltb, Bool-cases, inl, inr,
}
use mathlib.Core.List.{append-nil, append_assoc}
use mathlib.Core.List.{Memᴰ}
use mathlib.Core.List.Memᴰ
use yijinjing_lite.Constants.{frame_status_raw, page_min_headroom, journal_page_size}
use yijinjing_lite.Memory.{Memory}
use yijinjing_lite.Page.{new_page}
use yijinjing_lite.Page.Header.{page_init_position}
use yijinjing_lite.Page.Log.{Message, Fits, frame_size}
use yijinjing_lite.Page.Cursor.{moved-IsAt, pass_frame-moved}
use yijinjing_lite.Provider.{local_provider, numbered_page}
use yijinjing_lite.Writer.Publish.{Stored-store_frame, Agree-store_frame}
use yijinjing_lite.Writer.Frames.{Place, at_page, stored_world}
use yijinjing_lite.Writer.Log.{
  Log, Sealed, IsSealed, messages, closed_messages, Represents, closed_messages-append,
}
use yijinjing_lite.Page.Close.{finish_page_outside}
use yijinjing_lite.Writer.Growth.{closing, Extends, Turns, All-last}
use yijinjing_lite.Writer.Confined.{inodes_of, mem_closed}
use yijinjing_lite.Writer.Refine.{
  IsSealed_keeps, next_message, extended, stored_world-Represents, write_frame-extends,
}
use yijinjing_lite.Writer.Turned.{
  turned_world, turned_log, turned_world-Represents, locate_frame-turned, contents_elsewhere,
  files_elsewhere, files_ne, closed_contents, started, full_page,
}
use yijinjing_lite.Writer.{write_frame}
use yijinjing_lite.World.Effect.{ok}
use yijinjing_lite.World.{Os, World, put_at_self, put_at_ne}
use yijinjing_lite.World.New.{Healthy}

module _ (os : Os) (healthy : Healthy os) (auto_hash : Bool) (rounds : ℕ) (w : World) (l : Place)
    (g : Log) (bytes : List ℕ) (msg_type last_flag : ℕ) (rep : Represents w l g)
    (short_name : length l.short_name < 30) (time_fits : os.clock (w.readings + 1) < 2 ^ 64)
    (more : g.page.page_num + 1 < 2 ^ 15) where
  abbrev message_here : Message
  message_here =
      next_message os (local_provider true) auto_hash rounds w l g bytes msg_type last_flag

  abbrev Writes : Log → World → Type 0
  Writes g' v =
      write_frame os (local_provider true) auto_hash (suc (suc rounds)) bytes msg_type last_flag
        (at_page w l g.page)
      ≡ (ok (os.clock w.readings), at_page v l g'.page)

  abbrev stored_here : World
  stored_here = stored_world auto_hash w g.page.buffer g.tail message_here

  extends :
      Fits message_here
      → g.tail + frame_size message_here < 2 ^ 31
      → Extends w g (extended g message_here) stored_here message_here
  extends fits room =
      let m = w.contents g.page.buffer in
      let agree = Agree-store_frame auto_hash m g.tail message_here fits room in
      record {
        closed = refl;
        buffer = refl;
        number = refl;
        frames = refl;
        agree = rw (put_at_self w.contents g.page.buffer _) (λ c lo hi. agree c (omega arith) hi);
        last =
            rw (put_at_self w.contents g.page.buffer _)
              (Stored-store_frame auto_hash m g.tail message_here fits room, refl);
      }

  write_frame-open :
      Fits message_here
      → frame_size message_here ≤ page_min_headroom
      → g.tail + page_min_headroom < journal_page_size
      → (g' : Log) × (v : World) × Writes g' v × Appended w l g g' v message_here
  write_frame-open fits small room =
      let (writes, represents) =
        write_frame-extends os (local_provider true) auto_hash (suc rounds) w l g bytes msg_type
          last_flag rep fits small room in
      (
        extended g message_here,
        stored_world auto_hash w g.page.buffer g.tail message_here,
        writes,
        record {
          represents = represents;
          content = sym (append_assoc (closed_messages g.closed) g.frames (message_here ∷ []));
          first_page = refl;
          pages = omega arith;
          confined = record {
            contents = λ j lt ne. put_at_ne w.contents g.page.buffer j _ (λ e. ne (sym e));
            files = λ p apart. refl;
            inodes = omega arith;
            readings = omega arith;
            pages_old = λ i lt m. m;
          };
          grown = record {
            sealed = λ s h.
                IsSealed_keeps w stored_here l g.page (extended g message_here).page s (omega arith)
                  (omega arith) (λ j lt. put_at_ne w.contents g.page.buffer j _ (omega (arith, lt)))
                  (λ n lt. refl) h;
            open_page = inl (extends fits (omega arith));
          };
        },
      )

  -- The world and the log when the page is turned; the clock has been read before.
  abbrev ticking : World
  ticking = ticked w (w.readings + 1)

  abbrev still : Represents ticking l g
  still = Represents-ticked w (w.readings + 1) l g rep

  abbrev turned : World
  turned = turned_world os healthy ticking l g still more

  abbrev emptied : Log
  emptied = turned_log os healthy ticking l g still more

  emptied-messages : messages emptied ≡ messages g
  emptied-messages = append-nil _ ∙ closed_messages-append g.closed _

  old_page :
      (i : ℕ)
      → i < w.inodes
      → (i ≡ w.inodes) ⊎ Memᴰ i (map (λ s. s.inode) emptied.closed)
      → Memᴰ i (inodes_of g)
  old_page i lt (inl e) = absurd (omega (arith, lt, e))
  old_page i lt (inr m) = mem_closed i g.closed _ m

  -- Behind the turn and the store.
  abbrev stored_next : World
  stored_next =
      ticked (stored_world auto_hash turned emptied.page.buffer page_init_position message_here)
        turned.readings

  still_sealed :
      (s : Sealed)
      → IsSealed w l g.page s
      → IsSealed stored_next l (extended emptied message_here).page s
  unfolding numbered_page new_page
  still_sealed s h =
      IsSealed_keeps w stored_next l g.page (extended emptied message_here).page s (omega arith)
        (omega (arith, rep.owned))
        (λ j lt.
          put_at_ne turned.contents w.inodes j _ (omega (arith, lt, rep.owned))
          ∙ contents_elsewhere os healthy ticking l g still more j (omega (arith, lt, rep.owned))
              (omega (arith, lt)))
        (λ n lt.
          files_ne os healthy ticking l g still more n (omega (arith, lt)) (omega (arith, lt)))
        h

  turns :
      All (IsSealed stored_next l (extended emptied message_here).page) (g.closed ++ closing g ∷ [])
      → Turns w l g (extended emptied message_here) stored_next message_here
  unfolding numbered_page new_page
  turns closed = record {
    sealed = All-last _ g.closed (closing g) closed;
    number = omega arith;
    frames = refl;
    agree = λ c lo hi. sym (
        ap (λ (m : Memory). m c)
          (put_at_ne turned.contents w.inodes g.page.buffer _ (omega (arith, rep.owned))
            ∙ closed_contents os healthy ticking l g still more)
        ∙ finish_page_outside (w.contents g.page.buffer)
            (full_page os healthy ticking l g still more)
            (os.clock (started os healthy ticking l g still more).readings) g.tail g.frames
            frame_status_raw (moved-IsAt g.page g.tail 0) rep.holds c (omega arith) hi);
  }

  write_frame-full :
      Fits message_here
      → frame_size message_here ≤ page_min_headroom
      → journal_page_size ≤ g.tail + page_min_headroom
      → (g' : Log) × (v : World) × Writes g' v × Appended w l g g' v message_here
  unfolding numbered_page new_page
  write_frame-full fits small full =
      let q = emptied.page in
      let m = turned.contents q.buffer in
      let empty =
        turned_world-Represents os healthy ticking l g still more short_name time_fits full in
      let g' = extended emptied message_here in
      let v = stored_world auto_hash turned q.buffer page_init_position message_here in
      let stored =
        Stored-store_frame auto_hash m page_init_position message_here fits (omega arith) in
      let represented = Represents-ticked v turned.readings l g' (
        stored_world-Represents os auto_hash turned l emptied message_here empty fits small
          (omega arith)) in
      (
        g',
        ticked v turned.readings,
        write_frame-located os (local_provider true) auto_hash (suc (suc rounds)) w l g bytes
            msg_type last_flag turned q page_init_position _
            (locate_frame-turned os healthy ticking l g still more short_name time_fits rounds full)
            (pass_frame-moved _ q page_init_position message_here
              (moved-IsAt q page_init_position 0) stored (omega arith)),
        record {
          represents = represented;
          content =
              sym (append_assoc (closed_messages emptied.closed) [] (message_here ∷ []))
              ∙ ap (λ (ms : List Message). ms ++ message_here ∷ []) emptied-messages;
          first_page = refl;
          pages = omega arith;
          confined = record {
            contents = λ j lt ne.
                put_at_ne turned.contents w.inodes j _ (omega (arith, lt))
                ∙ contents_elsewhere os healthy ticking l g still more j lt ne;
            files = λ p apart.
                files_elsewhere os healthy ticking l g still more p
                  (apart (g.page.page_num + 1) more);
            inodes = omega arith;
            readings = omega arith;
            pages_old = λ i lt m. old_page i lt (Memᴰ.cases_cons m);
          };
          grown = record {
            sealed = λ s h. still_sealed s h;
            open_page = inr (turns represented.closed);
          };
        },
      )

  pub write_frame-Represents :
      Fits message_here
      → frame_size message_here ≤ page_min_headroom
      → (g' : Log) × (v : World) × Writes g' v × Appended w l g g' v message_here
  write_frame-Represents fits small =
      elim (Bool-cases (ltb (g.tail + page_min_headroom) journal_page_size)) [
        | inl room ↦ write_frame-open fits small (ground (arith, room))
        | inr full ↦ write_frame-full fits small (ground (arith, full))
      ]
