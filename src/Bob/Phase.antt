-- ===== src/Bob/Phase.antt =====
-- One thing at a time: at most one call of Bob's tab is under way, none while the challenge can be
-- answered, and each comes with what it needs.
use doppelganger_web.Prelude.{
  ℕ, ◌+◌, ◌≤◌, ◌<◌, String, Bool, false, List, [], ◌∷◌, ◌++◌, ◌≡◌, ◌≢◌, refl, ◌∙◌, Option, some,
  arith, All,
}
use doppelganger_web.Value.{Value}
use doppelganger_web.Ui.{Page, visible}
use doppelganger_web.Ui.Screens.{layout}
use doppelganger_web.Crypto.{
  Awaited, Key, KeyPair, Call, Request, export_public_key, derive_shared_key,
}
use doppelganger_web.Bob.{
  Task, init_generated, init_exported, session_answered, session_read, submit_exported,
  submit_fetched, submit_answered, pass_imported, pass_derived, Job, job, Tab, loaded,
}
use doppelganger_web.Bob.Answer.{verify_request}

abbrev pub count : List Job → ℕ
count [] = 0
count (j ∷ rest) = 1 + count rest

-- The fields of a tab that the protocol goes by.
pub record Core : Type 0 where
  pub session_id : String
  pub key_pair : Option KeyPair
  pub jobs : List Job
  pub sent : List Request

abbrev pub core : Tab → Core
core t = record { session_id = t.session_id; key_pair = t.key_pair; jobs = t.jobs; sent = t.sent }

-- The page has the screens that it was loaded with, and the challenge cannot be seen.
pub record Live (page : Page) : Type 0 where
  pub screens : layout page ≡ layout (loaded "").page
  pub not_challenge : visible page ≢ "step-bob-challenge" ∷ []

abbrev pub HasKey : Core → Type 0
HasKey c = (keys : KeyPair) × (c.key_pair ≡ some keys)

-- `export` is what the browser gives for the public key that it is asked to export.
module _ (export : Key → Value) where
  -- The last request sent the public half of the key pair that the tab holds, for the session of the page.
  pub record Posted (c : Core) : Type 0 where
    pub keys : KeyPair
    pub held : c.key_pair ≡ some keys
    pub earlier : List Request
    pub name : String
    pub answer : String
    pub last :
        c.sent ≡ earlier ++ verify_request c.session_id name answer (export keys.public_key) ∷ []

  -- Alice's key is combined with the private half of the pair whose public half was sent.
  pub record DerivesOwn (c : Core) (call : Call Awaited.key) : Type 0 where
    pub posted : Posted c
    pub theirs : Key
    pub own : call ≡ derive_shared_key posted.keys.private_key theirs

  abbrev pub Claim : Core → {k : Awaited} → Call k → Task k → Type 0
  Claim c call (submit_exported name answer) =
      (keys : KeyPair) × (c.key_pair ≡ some keys) × (call ≡ export_public_key keys.public_key)
  Claim c call submit_fetched = Posted c
  Claim c call (submit_answered status) = Posted c
  Claim c call (pass_imported answered) = Posted c
  Claim c call (pass_derived answered) = DerivesOwn c call
  Claim c call (init_exported session_id) = HasKey c
  Claim c call _ = Unit

  abbrev pub JobClaim : Core → Job → Type 0
  JobClaim c (job call task) = Claim c call task

  pub record Inv (c : Core) (disabled : Bool) (page : Page) : Type 0 where
    pub single : count c.jobs ≤ 1
    pub claims : All (JobClaim c) c.jobs
    pub keyed : disabled ≡ false → HasKey c
    pub live : 0 < count c.jobs → Live page

  pub Posted-same :
      (c d : Core)
      → d.session_id ≡ c.session_id
      → d.key_pair ≡ c.key_pair
      → d.sent ≡ c.sent
      → Posted c
      → Posted d
  Posted-same c d i k e p = record {
    keys = p.keys;
    held = k ∙ p.held;
    earlier = p.earlier;
    name = p.name;
    answer = p.answer;
    last = rw i (e ∙ p.last);
  }

  -- A claim is about the session, the key pair and the requests alone.
  pub Claim-same :
      (c d : Core) {k : Awaited} (call : Call k) (task : Task k)
      → d.session_id ≡ c.session_id
      → d.key_pair ≡ c.key_pair
      → d.sent ≡ c.sent
      → Claim c call task
      → Claim d call task
  unfolding Posted-same
  Claim-same c d call (submit_exported name answer) i k e (keys, held, made) =
      (keys, k ∙ held, made)
  Claim-same c d call submit_fetched i k e p = Posted-same c d i k e p
  Claim-same c d call (submit_answered status) i k e p = Posted-same c d i k e p
  Claim-same c d call (pass_imported answered) i k e p = Posted-same c d i k e p
  Claim-same c d call (pass_derived answered) i k e p = record {
    posted = Posted-same c d i k e p.posted;
    theirs = p.theirs;
    own = p.own;
  }
  Claim-same c d call (init_exported session_id) i k e (keys, held) = (keys, k ∙ held)
  Claim-same c d call (init_generated session_id) i k e p = tt
  Claim-same c d call (session_answered session_id) i k e p = tt
  Claim-same c d call session_read i k e p = tt

pub count-append : (xs ys : List Job) → count (xs ++ ys) ≡ count xs + count ys
count-append [] ys = omega arith
count-append (x ∷ xs) ys = omega (arith, count-append xs ys)

pub empty_of_count : (xs : List Job) → count xs ≡ 0 → xs ≡ []
empty_of_count [] h = refl
empty_of_count (x ∷ xs) h = absurd (omega arith)
