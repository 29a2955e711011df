-- ===== src/Journal/Object.antt =====
-- The fields of a `Journal` (include/yijinjing/journal/Journal.h), and the state that its methods
-- act on.
use yijinjing_lite.Prelude.{ℕ, Bool, List, Option}
use yijinjing_lite.Page.{Page}
use yijinjing_lite.World.Effect.{Run, ok}
use yijinjing_lite.World.{World}

pub record Journal : Type 0 where
  pub service_idx : ℕ
  pub directory : List ℕ
  pub short_name : List ℕ
  pub is_writing : Bool
  pub expired : Bool
  pub cur_page : Option Page

-- A method's state: the world and the object.
pub record Session : Type 0 where
  pub world : World
  pub journal : Journal

module _ {A : Type 0} where
  abbrev pub on_world : Run World A → Run Session A
  on_world m s = let (r, w) = m s.world in (r, record s { world = w })

  abbrev pub gets : (Journal → A) → Run Session A
  gets f s = (ok (f s.journal), s)

abbrev pub modify : (Journal → Journal) → Run Session Unit
modify f s = (ok tt, record s { journal = f s.journal })
