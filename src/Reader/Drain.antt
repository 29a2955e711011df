-- ===== src/Reader/Drain.antt =====
-- A reader of one journal that takes frames until there is none, against the log that a writer has
-- made.
use yijinjing_lite.Prelude.{
  ℕ, zero, suc, ◌+◌, ◌<◌, ◌^◌, ◌≡◌, refl, ap, ◌∙◌, List, [], ◌∷◌, length, Option, none, some, arith,
  false,
}
use yijinjing_lite.Memory.{Memory}
use yijinjing_lite.Frame.{get_nano, get_msg_type, get_last_flag, get_str}
use yijinjing_lite.Page.{Page}
use yijinjing_lite.Page.Log.{Message, frame_size, Stored}
use yijinjing_lite.Page.Cursor.{moved, moved-IsAt, pass_frame-moved}
use yijinjing_lite.Provider.{local_provider}
use yijinjing_lite.Writer.Frames.{Place}
use yijinjing_lite.Writer.Log.{Log, messages, Represents}
use yijinjing_lite.Writer.Readback.{get_str-Stored}
use yijinjing_lite.Reader.Object.{Reading, FrameAt}
use yijinjing_lite.Reader.{get_next_frame}
use yijinjing_lite.Reader.One.{Fixed, reading_one, get_next_frame-nothing, get_next_frame-passes}
use yijinjing_lite.Reader.Passes.{SameDisk, Ahead-head}
use yijinjing_lite.Reader.Follows.{
  reading, reading_in, Located, locate_frame-Located, locate_frame-first,
}
use yijinjing_lite.World.Effect.{Run, ok, pure, ◌>>=◌}
use yijinjing_lite.World.{Os, World}
use yijinjing_lite.World.New.{Healthy}

-- What a client reads through the getters of a frame.
unfoldable pub message_at : Memory → ℕ → Message
message_at m f = record {
  nano = get_nano m f;
  msg_type = get_msg_type m f;
  last_flag = get_last_flag m f;
  content = get_str m f;
}

pub message_at-Stored :
    (m : Memory) (f : ℕ) (r : Message)
    → f + frame_size r < 2 ^ 31
    → Stored m f r
    → message_at m f ≡ r
unfolding message_at
message_at-Stored m f r h s =
    ground (arith, s.nano, s.msg_type, s.last_flag, get_str-Stored m f r h s)

module _ (os : Os) (fuel : ℕ) where
  -- At most `n` calls of getNextFrame; the messages up to the first call that finds none.
  unfoldable pub take_frames : ℕ → Run Reading (List Message)
  take_frames zero = pure []
  take_frames (suc n) = do
    found ← get_next_frame os (local_provider false) fuel
    elim found [
      | none ↦ pure []
      | some f ↦ do
        r ← (λ s. (ok (message_at (s.world.contents f.buffer) f.address), s))
        rs ← take_frames n
        pure (r ∷ rs)
    ]

  pub take_frames-nothing :
      (n : ℕ) (s t : Reading)
      → get_next_frame os (local_provider false) fuel s ≡ (ok none, t)
      → take_frames (suc n) s ≡ (ok [], t)
  unfolding take_frames
  take_frames-nothing n s t e = rw (e, ◌>>=◌) refl

  pub take_frames-some :
      (n : ℕ) (s t u : Reading) (f : FrameAt) (rs : List Message)
      → get_next_frame os (local_provider false) fuel s ≡ (ok (some f), t)
      → take_frames n t ≡ (ok rs, u)
      → take_frames (suc n) s ≡ (ok (message_at (t.world.contents f.buffer) f.address ∷ rs), u)
  unfolding take_frames
  take_frames-some n s t u f rs e h = rw (e, ◌>>=◌, h) refl

module _ (os : Os) (healthy : Healthy os) (fuel : ℕ) (w : World) (l : Place) (g : Log)
    (rep : Represents w l g) (more : g.page.page_num < 2 ^ 15) (o : Fixed) where
  abbrev Takes : World → Option Page → Option ℕ → List Message → Type 0
  Takes v p cur rest =
      (s : Reading) × (take_frames os fuel (suc (length rest)) (reading_one v (reading l p) cur o)
        ≡ (ok rest, s))
      × SameDisk w s.world

  take_frames-Located :
      (rest : List Message) (v : World) (p : Option Page) (cur : Option ℕ)
      → Located os fuel w l g (reading_in v l p) rest
      → Takes v p cur rest
  take_frames-Located [] v p cur at = (
    reading_one at.world (reading l (some at.page)) cur o,
    take_frames-nothing os fuel zero _ _ (
        get_next_frame-nothing os (local_provider false) fuel v at.world (reading l p)
          (reading l (some at.page)) cur o at.result),
    at.same,
  )
  take_frames-Located (r ∷ rest) v p cur at =
      let front = Ahead-head w l g rep at.page r rest at.ahead at.ready in
      let behind = moved at.page (at.page.frame + frame_size r) 1 in
      let stored : Stored (at.world.contents at.page.buffer) at.page.frame r =
        rw at.same.contents front.stored in
      let passed =
        pass_frame-moved (at.world.contents at.page.buffer) at.page at.page.frame r at.cursor stored
          front.in_page in
      let next =
        locate_frame-Located os healthy fuel w l g rep more at.world at.same behind rest
          front.behind (moved-IsAt at.page (at.page.frame + frame_size r) 1) in
      let (s, takes, same) = take_frames-Located rest at.world (some behind) (some 0) next in
      let t = reading_one at.world (reading l (some behind)) (some 0) o in
      let finds =
        get_next_frame-passes os (local_provider false) fuel v at.world (reading l p)
          (reading l (some at.page)) cur o at.page.frame at.page at.result refl
        ∙ ap
            (λ (q : Page). (
              ok (some (record { buffer = at.page.buffer; address = at.page.frame })),
              reading_one at.world (reading l (some q)) (some 0) o,
            ))
            passed in
      (
        s,
        take_frames-some os fuel (suc (length rest)) _ t s _ rest finds takes
            ∙ ap (λ (x : Message). (ok (x ∷ rest), s))
                (message_at-Stored _ at.page.frame r front.in_page stored),
        same,
      )

  -- If the disk holds the journal `g` from page 1 on, a reader that has had no page of it yet,
  -- and asks for one frame more than it has messages, gets its messages in order and then
  -- none, and no file has changed. The page numbers are below 2^15 and the system calls
  -- succeed.
  pub take_frames-messages : g.first ≡ 1 → Takes w none none (messages g)
  take_frames-messages first = take_frames-Located (messages g) w none none (
      locate_frame-first os healthy fuel w l g rep more w
        (record { contents = refl; files = refl; inodes = refl }) first rep.closed)
