-- ===== src/Server/Life.antt =====
-- app/services/session_store.py: what a session promises. Its life goes one way, and the one event that is
-- announced comes with the one step from waiting to settled.
use doppelganger_web.Prelude.{
  String, Bool, true, false, List, [], ◌∷◌, ◌++◌, ◌≡◌, refl, sym, ◌∙◌, Option, none, some,
  if◌then◌else◌,
}
use mathlib.Core.Bool.{false≢true}
use mathlib.Core.List.{append-nil}
use mathlib.Core.Option.{none-ne-some, some_inj}
use doppelganger_web.Server.{Python, Config}
use doppelganger_web.Server.Redis.{Hash, lookup}
use doppelganger_web.Server.Store.{key_of}
use doppelganger_web.Server.Scoring.{event}
use doppelganger_web.Server.Effects.{is_waiting}
use doppelganger_web.Server.Run.{World, Step, Reach, is_new}
use doppelganger_web.Server.Once.{messages, IsValid}
use doppelganger_web.Server.Once.Steps.{Change, quiet, starts, settles}
use doppelganger_web.Server.Once.Always.{step-Change, reach-IsValid}

pub data Life : Type 0 where
  unborn waiting settled gone : Life

-- The moves of a session, with what each announces.
pub data Move : Life → List String → Life → Type 0 where
  stays : (l : Life) → Move l [] l
  is_born : Move unborn [] waiting
  is_stillborn : Move unborn [] gone
  settles_with : (message : String) → Move waiting (message ∷ []) settled
  waits_in_vain : Move waiting [] gone
  is_forgotten : Move settled [] gone

abbrev pub life_of : Bool → Option Hash → Life
life_of new none = if new then unborn else gone
life_of new (some h) = if is_waiting h then waiting else settled

abbrev pub life : String → World → Life
life id w = life_of (is_new id w) (lookup w.redis (key_of id))

-- What is there already stays as it is, or goes.
fades :
    (new_before new_after : Bool) (before after : Option Hash)
    → (new_before ≡ true → before ≡ none)
    → (new_after ≡ true → new_before ≡ true)
    → ((h : Hash) → after ≡ some h → before ≡ some h)
    → Move (life_of new_before before) [] (life_of new_after after)
fades n m none (some h) e f g = absurd (none-ne-some h (g h refl))
fades true true none none e f g = stays unborn
fades true false none none e f g = is_stillborn
fades false false none none e f g = stays gone
fades false true none none e f g = absurd (false≢true (f refl))
fades n m (some h) (some i) e f g = rw (some_inj.0 (g i refl)) (stays _)
fades true m (some h) none e f g = absurd (none-ne-some h (sym (e refl)))
fades false true (some h) none e f g = absurd (false≢true (f refl))
fades false false (some h) none e f g = goes (is_waiting h)
  where
    goes : (b : Bool) → Move (if b then waiting else settled) [] gone
    goes true = waits_in_vain
    goes false = is_forgotten

is_there :
    (new : Bool) (found : Option Hash) (h : Hash) (b : Bool)
    → found ≡ some h
    → is_waiting h ≡ b
    → life_of new found ≡ (if b then waiting else settled)
is_there new found h b there same = rw there (rw same refl)

appears :
    (found : Option Hash)
    → ((h : Hash) → found ≡ some h → is_waiting h ≡ true)
    → Move unborn [] (life_of false found)
appears none f = is_stillborn
appears (some h) f = rw (f h refl) is_born

module _ (py : Python) (config : Config) (id : String) where
  -- A step of the server is a move of each session, and announces what the move announces.
  pub record Refines (w v : World) : Type 0 where
    pub announced : List String
    pub move : Move (life id w) announced (life id v)
    pub adds : messages id v.redis.published ≡ messages id w.redis.published ++ announced

  Change-Refines : (w v : World) → IsValid py config id w → Change py config id w v → Refines w v
  Change-Refines w v h (quiet q) = record {
    announced = [];
    move = fades (is_new id w) (is_new id v) _ _ (λ is. (h.new is).0) q.was_new q.no_more;
    adds = q.same_messages ∙ sym (append-nil _);
  }
  Change-Refines w v h (starts s) = record {
    announced = [];
    move = rw s.is_first (rw (h.new s.is_first).0 (rw s.not_again (appears _ s.waits_first)));
    adds = s.same_messages ∙ sym (append-nil _);
  }
  Change-Refines w v h (settles s) = record {
    announced = py.dumps (event py s.passed s.p s.score) ∷ [];
    move =
        rw (is_there (is_new id w) _ s.found.0 true s.found.1 s.found.2)
          (rw (is_there (is_new id v) _ s.left.0 false s.left.1 s.left.2) (settles_with _));
    adds = s.announced;
  }

  -- From every world of the server, each step is for each session one of the moves of `Move`, and what it
  -- publishes on the channel of the session is what the move announces: one message where the session
  -- is settled, and nothing otherwise.
  pub step-Refines : (w v : World) → Reach py config w → Step py config w v → Refines w v
  step-Refines w v reach step =
      Change-Refines w v (reach-IsValid py config w reach id)
        (step-Change py config w v step (reach-IsValid py config w reach) id)
