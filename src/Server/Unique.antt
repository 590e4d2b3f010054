-- ===== src/Server/Unique.antt =====
-- app/utils/session_id.py: no two sessions have one id, and what was created is remembered.
use mathlib.Core.Bool.{false≢true}
use mathlib.Core.List.{Memᴰ}
use doppelganger_web.Prelude.{
  String, true, not, [], ◌∷◌, ◌≡◌, refl, sym, ap, ◌∙◌, subst, Option, any, str_eq,
}
use doppelganger_web.Exec.{Result, ok, throw}
use doppelganger_web.Server.{Python, Config}
use doppelganger_web.Server.Redis.{Hash}
use doppelganger_web.Server.Scoring.{Begun, replied, waits}
use doppelganger_web.Server.Verify.{begin}
use doppelganger_web.Server.Lookup.{path-str_eq}
use doppelganger_web.Server.Origin.{Sessions}
use doppelganger_web.Server.Once.Steps.{neither}
use doppelganger_web.Server.Run.{
  World, begun, Step, creates, begins, finishes, reads, deletes, checks, passes, Reach, started,
  stepped, after_create, after_begin, after_finish, after_read, after_delete, after_check,
}

new-not-Mem :
    (id : String) (created : Sessions) (found : Option Hash)
    → not (any (λ s. str_eq id s.0) created) ≡ true
    → ¬ Memᴰ (id, found) created
new-not-Mem id [] found new m = elim m [ ]
new-not-Mem id ((j, x) ∷ created) found new (Memᴰ.head e) =
    false≢true (sym (neither _ _ new).0 ∙ path-str_eq (ap (λ s. s.0) e))
new-not-Mem id ((j, x) ∷ created) found new (Memᴰ.tail m) =
    new-not-Mem id created found (neither _ _ new).1 m

-- One session for each id.
abbrev pub IsUnique : Sessions → Type 0
IsUnique created =
    (id : String) (x y : Option Hash) → Memᴰ (id, x) created → Memᴰ (id, y) created → x ≡ y

IsUnique-grow :
    (of : String) (found : Option Hash) (created : Sessions)
    → not (any (λ s. str_eq of s.0) created) ≡ true
    → IsUnique created
    → IsUnique ((of, found) ∷ created)
IsUnique-grow of found created new u id x y (Memᴰ.head e) (Memᴰ.head f) =
    ap (λ s. s.1) e ∙ sym (ap (λ s. s.1) f)
IsUnique-grow of found created new u id x y (Memᴰ.head e) (Memᴰ.tail m) =
    absurd (new-not-Mem of created y new (subst (λ j. Memᴰ (j, y) created) (ap (λ s. s.0) e) m))
IsUnique-grow of found created new u id x y (Memᴰ.tail m) (Memᴰ.head f) =
    absurd (new-not-Mem of created x new (subst (λ j. Memᴰ (j, x) created) (ap (λ s. s.0) f) m))
IsUnique-grow of found created new u id x y (Memᴰ.tail m) (Memᴰ.tail n) = u id x y m n

begun-created :
    (id : String) (result : Result Begun) (w : World) → (begun id result w).created ≡ w.created
begun-created id (ok (replied reply)) w = refl
begun-created id (ok (waits p)) w = refl
begun-created id (throw e) w = refl

module _ (py : Python) (config : Config) where
  step-IsUnique : (w v : World) → Step py config w v → IsUnique w.created → IsUnique v.created
  unfolding after_create after_begin after_finish after_read after_delete after_check
  step-IsUnique _ _ (creates w link id created_at embedding body new) u =
      IsUnique-grow id _ w.created new u
  step-IsUnique _ _ (begins w link id body) u =
      subst IsUnique (sym (begun-created id (begin link id body w.redis).0 _)) u
  step-IsUnique _ _ (finishes w link before p after embedding there) u = u
  step-IsUnique _ _ (reads w link id) u = u
  step-IsUnique _ _ (deletes w link id) u = u
  step-IsUnique _ _ (checks w link id) u = u
  step-IsUnique _ _ (passes w n) u = u

  pub reach-IsUnique : (w : World) → Reach py config w → IsUnique w.created
  reach-IsUnique _ started = λ id x y m n. elim m [ ]
  reach-IsUnique _ (stepped w v before step) = step-IsUnique w v step (reach-IsUnique w before)

  step-Mem :
      (w v : World) (e : String × Option Hash)
      → Step py config w v
      → Memᴰ e w.created
      → Memᴰ e v.created
  unfolding after_create after_begin after_finish after_read after_delete after_check
  step-Mem _ _ e (creates w link id created_at embedding body new) m = Memᴰ.tail m
  step-Mem _ _ e (begins w link id body) m =
      subst (Memᴰ e) (sym (begun-created id (begin link id body w.redis).0 _)) m
  step-Mem _ _ e (finishes w link before p after embedding there) m = m
  step-Mem _ _ e (reads w link id) m = m
  step-Mem _ _ e (deletes w link id) m = m
  step-Mem _ _ e (checks w link id) m = m
  step-Mem _ _ e (passes w n) m = m

  -- Any number of steps, in any order.
  pub data Steps (w : World) : World → Type 0 where
    no_step : Steps w w
    one_more : (u v : World) → Steps w u → Step py config u v → Steps w v

  pub Steps-Reach : (w v : World) → Reach py config w → Steps w v → Reach py config v
  Steps-Reach w _ reach no_step = reach
  Steps-Reach w _ reach (one_more u v steps step) = stepped u v (Steps-Reach w u reach steps) step

  pub Steps-Mem :
      (w v : World) (e : String × Option Hash) → Steps w v → Memᴰ e w.created → Memᴰ e v.created
  Steps-Mem w _ e no_step m = m
  Steps-Mem w _ e (one_more u v steps step) m = step-Mem u v e step (Steps-Mem w u e steps m)
