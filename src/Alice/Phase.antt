-- ===== src/Alice/Phase.antt =====
-- One thing at a time: an activity of Alice's tab is a pending step of one of its protocols, an open
-- event stream, or the enabled button. At most one is there, and each comes with what it needs.
use doppelganger_web.Prelude.{
  ℕ, ◌+◌, ◌≤◌, ◌<◌, String, Bool, true, false, List, [], ◌∷◌, ◌++◌, ◌≡◌, ◌≢◌, sym, ◌∙◌, Option,
  some, arith, All,
}
use doppelganger_web.Value.{Value}
use doppelganger_web.Ui.{Page, visible}
use doppelganger_web.Ui.Screens.{layout}
use doppelganger_web.Crypto.{
  Awaited, Key, KeyPair, Call, Request, export_public_key, derive_shared_key,
}
use doppelganger_web.Alice.{
  Task, init_generated, reset_generated, init_exported, create_exported, create_fetched,
  create_refused, create_answered, verified_imported, verified_derived, link_copied, copied_shown,
  reset_exported, Job, job, Source, Tab, loaded,
}
use doppelganger_web.Alice.Create.{create_request}

-- Copying the link is no activity of its own.
abbrev pub is_main : {k : Awaited} → Task k → ℕ
is_main link_copied = 0
is_main copied_shown = 0
is_main _ = 1

abbrev pub main_jobs : List Job → ℕ
main_jobs [] = 0
main_jobs (job call task ∷ rest) = is_main task + main_jobs rest

abbrev pub open_source : Bool → ℕ
open_source true = 0
open_source false = 1

abbrev pub open_sources : List Source → ℕ
open_sources [] = 0
open_sources (es ∷ rest) = open_source es.closed + open_sources rest

-- The fields of a tab that the protocols go by.
pub record Core : Type 0 where
  pub key_pair : Option KeyPair
  pub jobs : List Job
  pub sources : List Source
  pub disabled : Bool
  pub sent : List Request

abbrev pub core : Tab → Core
core t = record {
  key_pair = t.key_pair;
  jobs = t.jobs;
  sources = t.sources;
  disabled = t.create_disabled;
  sent = t.sent;
}

-- The number of activities.
abbrev pub weight : Core → ℕ
weight c = main_jobs c.jobs + (open_sources c.sources + open_source c.disabled)

-- The screen that can be seen is not one of those that show a result.
pub record Live (page : Page) : Type 0 where
  pub screens : layout page ≡ layout loaded.page
  pub not_pass : visible page ≢ "step-alice-pass" ∷ []
  pub not_fail : visible page ≢ "step-alice-fail" ∷ []

-- `export` is what the browser gives for the public key that it is asked to export.
module _ (export : Key → Value) where
  abbrev pub HasKey : Core → Type 0
  HasKey c = (keys : KeyPair) × (c.key_pair ≡ some keys)

  -- The last request posted the public half of the key pair that the tab holds.
  pub record Posted (c : Core) : Type 0 where
    pub keys : KeyPair
    pub held : c.key_pair ≡ some keys
    pub earlier : List Request
    pub name : String
    pub question : String
    pub answer : String
    pub last : c.sent ≡ earlier ++ create_request name question answer (export keys.public_key) ∷ []

  -- Bob's key is combined with the private half of the pair whose public half was posted.
  pub record DerivesOwn (c : Core) (call : Call Awaited.key) : Type 0 where
    pub posted : Posted c
    pub theirs : Key
    pub own : call ≡ derive_shared_key posted.keys.private_key theirs

  abbrev pub Claim : Core → {k : Awaited} → Call k → Task k → Type 0
  Claim c call (create_exported name question answer) =
      (keys : KeyPair) × (c.key_pair ≡ some keys) × (call ≡ export_public_key keys.public_key)
  Claim c call (create_fetched question) = Posted c
  Claim c call (create_refused status) = Posted c
  Claim c call (create_answered question) = Posted c
  Claim c call (verified_imported event) = Posted c
  Claim c call (verified_derived event) = DerivesOwn c call
  Claim c call init_exported = HasKey c
  Claim c call reset_exported = HasKey c
  Claim c call _ = Unit

  abbrev pub JobClaim : Core → Job → Type 0
  JobClaim c (job call task) = Claim c call task

  -- At most one activity; a pending step has what its claim says; the enabled button has a key pair,
  -- an open stream a session that was made with the current key pair; and a result is on the screen
  -- only when nothing is under way.
  pub record Inv (c : Core) (page : Page) : Type 0 where
    pub single : weight c ≤ 1
    pub claims : All (JobClaim c) c.jobs
    pub keyed : c.disabled ≡ false → HasKey c
    pub posted : 0 < open_sources c.sources → Posted c
    pub live : 0 < weight c → Live page

  pub Posted-same : (c d : Core) → d.key_pair ≡ c.key_pair → d.sent ≡ c.sent → Posted c → Posted d
  Posted-same c d k e p = record {
    keys = p.keys;
    held = k ∙ p.held;
    earlier = p.earlier;
    name = p.name;
    question = p.question;
    answer = p.answer;
    last = e ∙ p.last;
  }

  -- A claim is about the key pair and the requests alone.
  pub Claim-same :
      (c d : Core) {k : Awaited} (call : Call k) (task : Task k)
      → d.key_pair ≡ c.key_pair
      → d.sent ≡ c.sent
      → Claim c call task
      → Claim d call task
  unfolding Posted-same
  Claim-same c d call (create_exported name question answer) k e (keys, held, made) =
      (keys, k ∙ held, made)
  Claim-same c d call (create_fetched question) k e p = Posted-same c d k e p
  Claim-same c d call (create_refused status) k e p = Posted-same c d k e p
  Claim-same c d call (create_answered question) k e p = Posted-same c d k e p
  Claim-same c d call (verified_imported event) k e p = Posted-same c d k e p
  Claim-same c d call (verified_derived event) k e p = record {
    posted = Posted-same c d k e p.posted;
    theirs = p.theirs;
    own = p.own;
  }
  Claim-same c d call init_exported k e (keys, held) = (keys, k ∙ held)
  Claim-same c d call reset_exported k e (keys, held) = (keys, k ∙ held)
  Claim-same c d call init_generated k e p = tt
  Claim-same c d call reset_generated k e p = tt
  Claim-same c d call link_copied k e p = tt
  Claim-same c d call copied_shown k e p = tt

  pub claims-same :
      (c d : Core) (jobs : List Job)
      → d.key_pair ≡ c.key_pair
      → d.sent ≡ c.sent
      → All (JobClaim c) jobs
      → All (JobClaim d) jobs
  claims-same c d [] k e h = tt
  claims-same c d (job call task ∷ rest) k e (p, h) =
      (Claim-same c d call task k e p, claims-same c d rest k e h)

  minor-Claim :
      (c : Core) {k : Awaited} (call : Call k) (task : Task k)
      → is_main task ≡ 0
      → Claim c call task
  minor-Claim c call link_copied h = tt
  minor-Claim c call copied_shown h = tt
  minor-Claim c call _ h = absurd (omega arith)

  pub claims_of_idle : (c : Core) (jobs : List Job) → main_jobs jobs ≡ 0 → All (JobClaim c) jobs
  claims_of_idle c [] h = tt
  claims_of_idle c (job call task ∷ rest) h =
      (minor-Claim c call task (omega arith), claims_of_idle c rest (omega arith))

  -- With no activity there is nothing to claim.
  pub Inv-idle : (c : Core) (page : Page) → weight c ≡ 0 → Inv c page
  Inv-idle c page h = record {
    single = omega arith;
    claims = claims_of_idle c c.jobs (omega arith);
    keyed = λ e. absurd (ground arith);
    posted = λ p. absurd (omega arith);
    live = λ p. absurd (omega arith);
  }

pub main_jobs-append : (xs ys : List Job) → main_jobs (xs ++ ys) ≡ main_jobs xs + main_jobs ys
main_jobs-append [] ys = omega arith
main_jobs-append (job call task ∷ xs) ys = omega (arith, main_jobs-append xs ys)

pub open_sources-append :
    (xs ys : List Source) → open_sources (xs ++ ys) ≡ open_sources xs + open_sources ys
open_sources-append [] ys = omega arith
open_sources-append (x ∷ xs) ys = omega (arith, open_sources-append xs ys)

-- A change of the jobs that leaves the activities alone.
pub Inv-jobs :
    (export : Key → Value) (c d : Core) (page : Page)
    → d.key_pair ≡ c.key_pair
    → d.sent ≡ c.sent
    → d.sources ≡ c.sources
    → d.disabled ≡ c.disabled
    → main_jobs d.jobs ≡ main_jobs c.jobs
    → All (JobClaim export c) d.jobs
    → Inv export c page
    → Inv export d page
Inv-jobs export c d page k e s b m claims h = record {
  single = rw (s, b, m) h.single;
  claims = claims-same export c d d.jobs k e claims;
  keyed = λ off. let (keys, held) = h.keyed (sym b ∙ off) in (keys, k ∙ held);
  posted = λ p. Posted-same export c d k e (h.posted (rw s at p));
  live = λ p. h.live (rw (s, b, m) at p);
}
